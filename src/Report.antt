-- ===== src/Report.antt =====
-- src/report.rs: traffic and online addresses that the core counted, merged by node and user, and
-- their report to the panel. The senders are records of their methods over a state. An `i64` of
-- traffic comes from `u64_to_i64` and saturating sums of such, so that it is never negative and
-- stands as a number of at most `i64_max`.
pub mod Merged
pub mod Batch
pub mod Delivery
pub mod Online
mod Tests
use kelinode_rs.Prelude.{
  ℕ, ◌+◌, min, Bool, true, false, not, ◌&&◌, ◌||◌, Option, none, some, List, [], ◌∷◌, ◌++◌, map,
  leb, ◌==◌, if◌then◌else◌, is_empty, all, any, keep, Ordering,
}
use kelinode_rs.Prelude.Text.{Text, text, text_eq, strip_prefix, is_digit}
use kelinode_rs.Prelude.Result.{Result, ok, err}
use kelinode_rs.Prelude.Order.{text_ord, nat_ord, text_cmp}
use kelinode_rs.BTreeMap.{BTreeMap, get, insert, collect, contains_key}

abbrev pub i64_max : ℕ
i64_max = 9223372036854775807

abbrev pub u32_max : ℕ
u32_max = 4294967295

-- core_control.rs
pub record KeliCoreTrafficRecord : Type 0 where
  pub node_tag : Text
  pub user_uuid : Text
  pub user_id : Option ℕ
  pub upload : ℕ
  pub download : ℕ
  pub online_ips : List Text

-- core.rs, with the fields that are read here.
pub record InboundUserPlan : Type 0 where
  pub uuid : Text
  pub id : ℕ

pub record InboundPlan : Type 0 where
  pub tag : Text
  pub users : List InboundUserPlan

-- panel/types.rs
pub record UserTraffic : Type 0 where
  pub uid : ℕ
  pub upload : ℕ
  pub download : ℕ

pub record NodeActivitySnapshot : Type 0 where
  pub traffic : List UserTraffic
  pub online : BTreeMap ℕ (List Text)

abbrev pub no_activity : NodeActivitySnapshot
no_activity = record { traffic = []; online = [] }

abbrev pub KeliCoreUserIdLookup : Type 0
KeliCoreUserIdLookup = BTreeMap Text (BTreeMap Text ℕ)

abbrev pub Snapshots : Type 0
Snapshots = BTreeMap Text NodeActivitySnapshot

abbrev pub is_port_suffix : Option Text → Bool
is_port_suffix none = false
is_port_suffix (some port) = not (is_empty port) && all is_digit port

-- `|port:` after the inbound's tag.
unfoldable pub normalize_keli_core_record_tag : Text → Text → Option Text
normalize_keli_core_record_tag record_tag inbound_tag =
    if text_eq record_tag inbound_tag
    then some inbound_tag
    else elim (strip_prefix inbound_tag record_tag) [
      | none ↦ none
      | some suffix ↦
          if is_port_suffix (strip_prefix (text "|port:") suffix) then some inbound_tag else none
    ]

abbrev pub or_else : {A : Type 0} → Option A → Option A → Option A
or_else none b = b
or_else (some a) b = some a

-- The first user of an inbound with the uuid.
abbrev pub id_of : Text → List InboundUserPlan → Option ℕ
id_of uuid [] = none
id_of uuid (u ∷ us) = if text_eq u.uuid uuid then some u.id else id_of uuid us

abbrev pub known_id : Text → Option (BTreeMap Text ℕ) → Option ℕ
known_id uuid none = none
known_id uuid (some users) = get uuid users

abbrev pub as_u32 : Option ℕ → Option ℕ
as_u32 none = none
as_u32 (some id) = if leb id u32_max then some id else none

abbrev pub with_tag : Text → Option ℕ → Option (Text × ℕ)
with_tag tag none = none
with_tag tag (some uid) = some (tag, uid)

-- The closure of `keli_core_record_report_target`.
unfoldable pub inbound_target :
    KeliCoreTrafficRecord → KeliCoreUserIdLookup → InboundPlan → Option (Text × ℕ)
unfolding normalize_keli_core_record_tag
inbound_target r user_lookup inbound =
    elim (normalize_keli_core_record_tag r.node_tag inbound.tag) [
      | none ↦ none
      | some node_tag ↦ with_tag node_tag (
          or_else (as_u32 r.user_id) (
            or_else (known_id r.user_uuid (get node_tag user_lookup))
              (id_of r.user_uuid inbound.users)))
    ]

unfoldable pub keli_core_record_report_target :
    List InboundPlan → KeliCoreTrafficRecord → KeliCoreUserIdLookup → Option (Text × ℕ)
unfolding inbound_target
keli_core_record_report_target [] r user_lookup = none
keli_core_record_report_target (inbound ∷ inbounds) r user_lookup =
    or_else (inbound_target r user_lookup inbound)
      (keli_core_record_report_target inbounds r user_lookup)

unfoldable pub keli_core_record_report_tag : List InboundPlan → KeliCoreTrafficRecord → Option Text
unfolding normalize_keli_core_record_tag
keli_core_record_report_tag [] r = none
keli_core_record_report_tag (inbound ∷ inbounds) r =
    or_else (normalize_keli_core_record_tag r.node_tag inbound.tag)
      (keli_core_record_report_tag inbounds r)

unfoldable pub u64_to_i64 : ℕ → ℕ
u64_to_i64 value = if leb value i64_max then value else i64_max

abbrev pub saturating_add : ℕ → ℕ → ℕ
saturating_add a b = min (a + b) i64_max

unfoldable pub merge_user_traffic : List UserTraffic → ℕ → ℕ → ℕ → List UserTraffic
merge_user_traffic [] uid upload download =
    record { uid = uid; upload = upload; download = download } ∷ []
merge_user_traffic (item ∷ traffic) uid upload download =
    let rest = merge_user_traffic traffic uid upload download in
    if item.uid == uid
    then record item {
      upload = saturating_add item.upload upload;
      download = saturating_add item.download download;
    }
      ∷ traffic
    else item ∷ rest

-- The loop of `merge_online_ips`.
unfoldable pub add_ips : List Text → List Text → List Text
add_ips entry [] = entry
add_ips entry (ip ∷ ips) =
    add_ips (if any (λ value. text_eq value ip) entry then entry else entry ++ ip ∷ []) ips

-- `sort()`, by the order of the texts.
abbrev pub insert_sorted : Text → List Text → List Text
insert_sorted s [] = s ∷ []
insert_sorted s (t ∷ ts) = elim (text_cmp s t) as (λ _. List Text) [
  | Ordering.gt ↦ t ∷ insert_sorted s ts
  | _ ↦ s ∷ t ∷ ts
]

abbrev pub sort : List Text → List Text
sort [] = []
sort (s ∷ ss) = insert_sorted s (sort ss)

abbrev pub or_none : Option (List Text) → List Text
or_none none = []
or_none (some ips) = ips

unfoldable pub merge_online_ips : BTreeMap ℕ (List Text) → ℕ → List Text → BTreeMap ℕ (List Text)
unfolding add_ips
merge_online_ips online uid ips =
    if is_empty ips
    then online
    else insert uid (sort (add_ips (or_none (get uid online)) ips)) online

abbrev pub or_no_activity : Option NodeActivitySnapshot → NodeActivitySnapshot
or_no_activity none = no_activity
or_no_activity (some s) = s

-- One round of the loop over the records, once the target is known.
unfoldable pub credit : Text → ℕ → KeliCoreTrafficRecord → Snapshots → Snapshots
unfolding merge_user_traffic merge_online_ips u64_to_i64
credit node_tag uid r snapshots =
    let snapshot = or_no_activity (get node_tag snapshots) in
    insert node_tag
      (record {
        traffic =
            merge_user_traffic snapshot.traffic uid (u64_to_i64 r.upload) (u64_to_i64 r.download);
        online = merge_online_ips snapshot.online uid r.online_ips;
      })
      snapshots

module _ (inbounds : List InboundPlan) (user_lookup : KeliCoreUserIdLookup) where
  unfoldable pub add_record : KeliCoreTrafficRecord → Snapshots → Snapshots
  unfolding credit keli_core_record_report_target
  add_record r snapshots = elim (keli_core_record_report_target inbounds r user_lookup) [
    | none ↦ snapshots
    | some (node_tag, uid) ↦ credit node_tag uid r snapshots
  ]

  unfoldable pub add_records : List KeliCoreTrafficRecord → Snapshots → Snapshots
  unfolding add_record
  add_records [] snapshots = snapshots
  add_records (r ∷ records) snapshots = add_records records (add_record r snapshots)

unfoldable pub keli_core_traffic_snapshots_with_user_lookup :
    List InboundPlan → List KeliCoreTrafficRecord → KeliCoreUserIdLookup → Snapshots
unfolding add_records
keli_core_traffic_snapshots_with_user_lookup inbounds records user_lookup =
    add_records inbounds user_lookup records []

unfoldable pub keli_core_traffic_snapshots :
    List InboundPlan → List KeliCoreTrafficRecord → Snapshots
unfolding keli_core_traffic_snapshots_with_user_lookup
keli_core_traffic_snapshots inbounds records =
    keli_core_traffic_snapshots_with_user_lookup inbounds records []
