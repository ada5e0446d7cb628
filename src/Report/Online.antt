-- ===== src/Report/Online.antt =====
-- The addresses that src/report.rs reports as online for a user of a node.
use kelinode_rs.Prelude.{
  ℕ, Bool, true, ◌&&◌, ◌||◌, Option, none, some, List, [], ◌∷◌, ◌++◌, ◌==◌, ==_iff, if◌then◌else◌,
  any, any-append, ◌≡◌, refl, ap, ◌∙◌, arith,
}
use kelinode_rs.Prelude.Text.{Text, text_eq, text_eq_iff}
use kelinode_rs.Prelude.Order.{text_ord, nat_ord}
use kelinode_rs.BTreeMap.{BTreeMap, get, insert}
use kelinode_rs.BTreeMap.Laws.{get-insert}
use kelinode_rs.Report.{
  KeliCoreTrafficRecord, InboundPlan, KeliCoreUserIdLookup, Snapshots, or_no_activity, or_none,
  insert_sorted, sort, add_ips, merge_online_ips, credit, add_record, add_records,
  keli_core_record_report_target, keli_core_traffic_snapshots_with_user_lookup,
}
use kelinode_rs.Report.Merged.{is_credited, get-insert_text}

abbrev pub has_ip : Text → List Text → Bool
has_ip ip ips = any (λ value. text_eq value ip) ips

has_ip-insert_sorted :
    (ip s : Text) (ss : List Text) → has_ip ip (insert_sorted s ss) ≡ (text_eq s ip || has_ip ip ss)
has_ip-insert_sorted ip s [] = refl
has_ip-insert_sorted ip s (t ∷ ts) = ground (arith, has_ip-insert_sorted ip s ts)

has_ip-sort : (ip : Text) (ss : List Text) → has_ip ip (sort ss) ≡ has_ip ip ss
has_ip-sort ip [] = refl
has_ip-sort ip (s ∷ ss) = ground (arith, has_ip-insert_sorted ip s (sort ss), has_ip-sort ip ss)

has_ip_same :
    (ip value : Text) (entry : List Text)
    → text_eq value ip ≡ true
    → has_ip value entry ≡ has_ip ip entry
has_ip_same ip value entry h = ap (λ x. has_ip x entry) ((text_eq_iff value ip).0 h)

has_ip-add_ips :
    (ip : Text) (entry ips : List Text)
    → has_ip ip (add_ips entry ips) ≡ (has_ip ip entry || has_ip ip ips)
unfolding add_ips
has_ip-add_ips ip entry [] = ground arith
has_ip-add_ips ip entry (value ∷ ips) =
    has_ip-add_ips ip (if has_ip value entry then entry else entry ++ value ∷ []) ips
    ∙ ground (arith, any-append (λ v. text_eq v ip) entry (value ∷ []), has_ip_same ip value entry)

-- The addresses of a user in the map.
abbrev pub ips_of : ℕ → BTreeMap ℕ (List Text) → List Text
ips_of uid online = or_none (get uid online)

get-insert_nat :
    {V : Type 0} (j k : ℕ) (v : V) (m : BTreeMap ℕ V)
    → get j (insert k v m) ≡ (if k == j then some v else get j m)
get-insert_nat j k v m = get-insert j k v m ∙ ground arith

has_ip-merge_online_ips :
    (ip : Text) (uid who : ℕ) (online : BTreeMap ℕ (List Text)) (ips : List Text)
    → has_ip ip (ips_of uid (merge_online_ips online who ips))
      ≡ (has_ip ip (ips_of uid online) || (who == uid && has_ip ip ips))
unfolding merge_online_ips
has_ip-merge_online_ips ip uid who online [] = ground arith
has_ip-merge_online_ips ip uid who online (i ∷ ips) =
    let entry = add_ips (ips_of who online) (i ∷ ips) in
    ap (λ o. has_ip ip (or_none o)) (get-insert_nat uid who (sort entry) online)
    ∙ ground (
      arith,
      ==_iff who uid,
      has_ip-sort ip entry,
      has_ip-add_ips ip (ips_of who online) (i ∷ ips),
    )

abbrev pub is_online : Text → Text → ℕ → Snapshots → Bool
is_online ip tag uid snapshots = has_ip ip (ips_of uid (or_no_activity (get tag snapshots)).online)

is_online-credit :
    (ip tag t : Text) (uid u : ℕ) (r : KeliCoreTrafficRecord) (snapshots : Snapshots)
    → is_online ip tag uid (credit t u r snapshots)
      ≡ (is_online ip tag uid snapshots || ((text_eq t tag && u == uid) && has_ip ip r.online_ips))
unfolding credit
is_online-credit ip tag t uid u r snapshots =
    let s = or_no_activity (get t snapshots) in
    ap (λ o. has_ip ip (ips_of uid (or_no_activity o).online)) (get-insert_text tag t _ snapshots)
    ∙ ground (arith, text_eq_iff t tag, has_ip-merge_online_ips ip uid u s.online r.online_ips)

module _ (inbounds : List InboundPlan) (user_lookup : KeliCoreUserIdLookup) (ip tag : Text)
    (uid : ℕ) where
  -- A record is credited to the user of the node and has the address.
  abbrev pub shows : KeliCoreTrafficRecord → Bool
  shows r =
      is_credited tag uid (keli_core_record_report_target inbounds r user_lookup)
      && has_ip ip r.online_ips

  is_online-add_record :
      (r : KeliCoreTrafficRecord) (snapshots : Snapshots)
      → is_online ip tag uid (add_record inbounds user_lookup r snapshots)
        ≡ (is_online ip tag uid snapshots || shows r)
  unfolding add_record
  is_online-add_record r snapshots =
      target_cases (keli_core_record_report_target inbounds r user_lookup)
    where
      target_cases :
          (target : Option (Text × ℕ))
          → is_online ip tag uid (elim target as (λ _. Snapshots) [
            | none ↦ snapshots
            | some (node_tag, u) ↦ credit node_tag u r snapshots
          ])
            ≡ (is_online ip tag uid snapshots
                || (is_credited tag uid target && has_ip ip r.online_ips))
      target_cases none = ground arith
      target_cases (some (t, u)) = is_online-credit ip tag t uid u r snapshots

  is_online-add_records :
      (records : List KeliCoreTrafficRecord) (snapshots : Snapshots)
      → is_online ip tag uid (add_records inbounds user_lookup records snapshots)
        ≡ (is_online ip tag uid snapshots || any shows records)
  unfolding add_records
  is_online-add_records [] snapshots = ground arith
  is_online-add_records (r ∷ records) snapshots =
      is_online-add_records records (add_record inbounds user_lookup r snapshots)
      ∙ ground (arith, is_online-add_record r snapshots)

  -- An address is reported as online for a user of a node exactly when a record that is credited to
  -- that user has it.
  pub is_online-snapshots :
      (records : List KeliCoreTrafficRecord)
      → is_online ip tag uid
          (keli_core_traffic_snapshots_with_user_lookup inbounds records user_lookup)
        ≡ any shows records
  unfolding keli_core_traffic_snapshots_with_user_lookup get
  is_online-snapshots records = is_online-add_records records []
