-- ===== src/Report/Tests.antt =====
-- The report of src/report.rs at small inputs, and the theorems at inputs that meet their
-- hypotheses.
use kelinode_rs.Prelude.{any, ℕ, false, none, some, List, [], ◌∷◌, min, ◌≡◌, refl}
use kelinode_rs.Prelude.Text.{text, text_eq, strip_prefix, is_digit}
use kelinode_rs.Prelude.Result.{ok}
use kelinode_rs.Report.{
  i64_max, KeliCoreTrafficRecord, InboundPlan, NodeActivitySnapshot, normalize_keli_core_record_tag,
  keli_core_traffic_snapshots_with_user_lookup,
}
use kelinode_rs.Report.Batch.{NodeActivityTarget, NodeActivitySender, report_activity_with_fallback}
use kelinode_rs.Report.Merged.{up, carried, total, carried-snapshots}
use kelinode_rs.Report.Online.{is_online, shows, is_online-snapshots}
use kelinode_rs.Report.Delivery.{IsDelivery, logged, report_activity_with_fallback-IsDelivery}

port_suffix : normalize_keli_core_record_tag (text "n|port:80") (text "n") ≡ some (text "n")
unfolding normalize_keli_core_record_tag text_eq strip_prefix is_digit
port_suffix = refl

other_suffix : normalize_keli_core_record_tag (text "n|port:x") (text "n") ≡ none
unfolding normalize_keli_core_record_tag text_eq strip_prefix is_digit
other_suffix = refl

abbrev inbounds : List InboundPlan
inbounds = record { tag = text "n"; users = record { uuid = text "u"; id = 7 } ∷ [] } ∷ []

abbrev counts : ℕ → KeliCoreTrafficRecord
counts upload = record {
  node_tag = text "n|port:80";
  user_uuid = text "u";
  user_id = none;
  upload = upload;
  download = 1;
  online_ips = text "10.0.0.1" ∷ [];
}

carried-snapshots_example :
    carried up
      (text "n")
      7
      (keli_core_traffic_snapshots_with_user_lookup inbounds (counts 3 ∷ counts 4 ∷ []) [])
    ≡ min (total inbounds [] up (text "n") 7 (counts 3 ∷ counts 4 ∷ [])) i64_max
carried-snapshots_example = carried-snapshots inbounds [] up (text "n") 7 (counts 3 ∷ counts 4 ∷ [])

-- A panel without the unified route.
abbrev old_panel : NodeActivitySender (Unit {0})
old_panel = record {
  report_snapshot = λ traffic online s. (ok false, s);
  report_user_traffic = λ traffic s. (ok tt, s);
  report_online_users = λ online s. (ok tt, s);
}

abbrev snapshot : NodeActivitySnapshot
snapshot = record { traffic = record { uid = 7; upload = 3; download = 1 } ∷ []; online = [] }

report_activity_with_fallback-IsDelivery_example :
    IsDelivery snapshot
      (report_activity_with_fallback (logged old_panel) snapshot (tt, [])).0
      (report_activity_with_fallback (logged old_panel) snapshot (tt, [])).1.1
report_activity_with_fallback-IsDelivery_example =
    report_activity_with_fallback-IsDelivery old_panel snapshot tt

abbrev targets : List (NodeActivityTarget (Unit {0}))
targets = record { tag = text "n"; config = tt } ∷ record { tag = text "m"; config = tt } ∷ []

is_online-snapshots_example :
    is_online
      (text "10.0.0.1")
      (text "n")
      7
      (keli_core_traffic_snapshots_with_user_lookup inbounds (counts 3 ∷ counts 4 ∷ []) [])
    ≡ any (shows inbounds [] (text "10.0.0.1") (text "n") 7) (counts 3 ∷ counts 4 ∷ [])
is_online-snapshots_example =
    is_online-snapshots inbounds [] (text "10.0.0.1") (text "n") 7 (counts 3 ∷ counts 4 ∷ [])
