-- ===== src/Report/Merged.antt =====
-- What src/report.rs credits to a user of a node: the sum of the user's records, up to the bound.
use kelinode_rs.Prelude.{
  ℕ, ◌+◌, ◌≤◌, min, Bool, false, ◌&&◌, Option, none, some, List, [], ◌∷◌, ◌==◌, if◌then◌else◌, ◌≡◌,
  ap, ◌∙◌, arith,
}
use kelinode_rs.Prelude.Text.{Text, text_eq, text_eq_iff}
use kelinode_rs.Prelude.Order.{text_ord, nat_ord, text_cmp_eq, text_cmp_refl}
use kelinode_rs.BTreeMap.{BTreeMap, get, insert}
use kelinode_rs.BTreeMap.Laws.{get-insert}
use kelinode_rs.Report.{
  i64_max, KeliCoreTrafficRecord, InboundPlan, UserTraffic, KeliCoreUserIdLookup, Snapshots,
  or_no_activity, keli_core_record_report_target, u64_to_i64, saturating_add, merge_user_traffic,
  credit, add_record, add_records, keli_core_traffic_snapshots_with_user_lookup,
}

pub data Direction : Type 0 where
  up down : Direction

abbrev pub pick : Direction → ℕ → ℕ → ℕ
pick up upload download = upload
pick down upload download = download

-- The bytes of the first entry of a user.
abbrev pub carried_of : Direction → ℕ → List UserTraffic → ℕ
carried_of way uid [] = 0
carried_of way uid (item ∷ traffic) =
    if item.uid == uid then pick way item.upload item.download else carried_of way uid traffic

abbrev pub carried : Direction → Text → ℕ → Snapshots → ℕ
carried way tag uid snapshots = carried_of way uid (or_no_activity (get tag snapshots)).traffic

u64_to_i64-min : (n : ℕ) → u64_to_i64 n ≡ min n i64_max
unfolding u64_to_i64
u64_to_i64-min n = ground arith

carried_of-merge_user_traffic :
    (way : Direction) (uid who upload download : ℕ) (traffic : List UserTraffic)
    → upload ≤ i64_max
    → download ≤ i64_max
    → carried_of way uid (merge_user_traffic traffic who upload download) ≡ (
        if who == uid
        then saturating_add (carried_of way uid traffic) (pick way upload download)
        else carried_of way uid traffic)
unfolding merge_user_traffic
carried_of-merge_user_traffic up uid who upload download [] h k = ground arith
carried_of-merge_user_traffic down uid who upload download [] h k = ground arith
carried_of-merge_user_traffic up uid who upload download (item ∷ traffic) h k =
    ground (arith, carried_of-merge_user_traffic up uid who upload download traffic h k)
carried_of-merge_user_traffic down uid who upload download (item ∷ traffic) h k =
    ground (arith, carried_of-merge_user_traffic down uid who upload download traffic h k)

-- Whether a record is credited to the user of the node.
abbrev pub is_credited : Text → ℕ → Option (Text × ℕ) → Bool
is_credited tag uid none = false
is_credited tag uid (some (t, u)) = text_eq t tag && u == uid

pub get-insert_text :
    {V : Type 0} (j k : Text) (v : V) (m : BTreeMap Text V)
    → get j (insert k v m) ≡ (if text_eq k j then some v else get j m)
get-insert_text j k v m =
    get-insert j k v m ∙ ground (arith, text_eq_iff k j, text_cmp_eq j k, text_cmp_refl j)

carried-credit :
    (way : Direction) (tag t : Text) (uid u : ℕ) (r : KeliCoreTrafficRecord) (snapshots : Snapshots)
    → carried way tag uid (credit t u r snapshots) ≡ (
        if text_eq t tag && u == uid
        then saturating_add
            (carried way tag uid snapshots)
            (pick way (u64_to_i64 r.upload) (u64_to_i64 r.download))
        else carried way tag uid snapshots)
unfolding credit
carried-credit way tag t uid u r snapshots =
    let s = or_no_activity (get t snapshots) in
    ap (λ o. carried_of way uid (or_no_activity o).traffic) (get-insert_text tag t _ snapshots)
    ∙ ground (
      arith,
      text_eq_iff t tag,
      carried_of-merge_user_traffic way uid u (u64_to_i64 r.upload) (u64_to_i64 r.download)
          s.traffic (omega (arith, u64_to_i64-min r.upload))
          (omega (arith, u64_to_i64-min r.download)),
    )

pick-min :
    (way : Direction) (r : KeliCoreTrafficRecord)
    → pick way (u64_to_i64 r.upload) (u64_to_i64 r.download)
      ≡ min (pick way r.upload r.download) i64_max
pick-min up r = u64_to_i64-min r.upload
pick-min down r = u64_to_i64-min r.download

module _ (inbounds : List InboundPlan) (user_lookup : KeliCoreUserIdLookup) (way : Direction)
    (tag : Text) (uid : ℕ) where
  -- What a record adds to the user's bytes, as a `u64`.
  abbrev pub credited : KeliCoreTrafficRecord → ℕ
  credited r =
      if is_credited tag uid (keli_core_record_report_target inbounds r user_lookup)
      then pick way r.upload r.download
      else 0

  abbrev pub total : List KeliCoreTrafficRecord → ℕ
  total [] = 0
  total (r ∷ records) = credited r + total records

  carried-add_record :
      (r : KeliCoreTrafficRecord) (snapshots : Snapshots)
      → carried way tag uid snapshots ≤ i64_max
      → carried way tag uid (add_record inbounds user_lookup r snapshots)
        ≡ min (carried way tag uid snapshots + credited r) i64_max
  unfolding add_record
  carried-add_record r snapshots h =
      target_cases (keli_core_record_report_target inbounds r user_lookup)
    where
      target_cases :
          (target : Option (Text × ℕ))
          → carried way tag uid (elim target as (λ _. Snapshots) [
            | none ↦ snapshots
            | some (node_tag, u) ↦ credit node_tag u r snapshots
          ])
            ≡ min
                (carried way tag uid snapshots
                  + (if is_credited tag uid target then pick way r.upload r.download else 0))
                i64_max
      target_cases none = omega (arith, h)
      target_cases (some (t, u)) =
          ground (arith, carried-credit way tag t uid u r snapshots, pick-min way r, h)

  carried-add_records :
      (records : List KeliCoreTrafficRecord) (snapshots : Snapshots)
      → carried way tag uid snapshots ≤ i64_max
      → carried way tag uid (add_records inbounds user_lookup records snapshots)
        ≡ min (carried way tag uid snapshots + total records) i64_max
  unfolding add_records
  carried-add_records [] snapshots h = omega arith
  carried-add_records (r ∷ records) snapshots h =
      let once = carried-add_record r snapshots h in
      carried-add_records records (add_record inbounds user_lookup r snapshots)
        (omega (arith, once))
      ∙ omega (arith, once)

  -- In both directions, the bytes reported for a user of a node are the sum of those of the records
  -- credited to that user, or the greatest `i64` if the sum is more.
  pub carried-snapshots :
      (records : List KeliCoreTrafficRecord)
      → carried way tag uid
          (keli_core_traffic_snapshots_with_user_lookup inbounds records user_lookup)
        ≡ min (total records) i64_max
  unfolding keli_core_traffic_snapshots_with_user_lookup get
  carried-snapshots records = carried-add_records records [] (omega arith) ∙ omega arith
