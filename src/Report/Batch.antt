-- ===== src/Report/Batch.antt =====
-- src/report.rs: sending one snapshot to the panel, and a batch of them.
use kelinode_rs.Prelude.{
  ℕ, ◌+◌, Bool, true, false, ◌&&◌, none, some, List, [], ◌∷◌, ◌++◌, map, if◌then◌else◌, is_empty,
  keep,
}
use kelinode_rs.Prelude.Text.{Text}
use kelinode_rs.Prelude.Result.{Result, ok, err}
use kelinode_rs.Prelude.Order.{text_ord}
use kelinode_rs.BTreeMap.{BTreeMap, get, collect, contains_key}
use kelinode_rs.Report.{
  KeliCoreTrafficRecord, InboundPlan, UserTraffic, NodeActivitySnapshot, Snapshots,
  keli_core_record_report_tag,
}

pub record NodeActivityTarget (C : Type 0) : Type 0 where
  pub tag : Text
  pub config : C

pub record NodeActivityReport : Type 0 where
  pub skipped : Bool
  pub unified : Bool
  pub legacy_traffic : Bool
  pub legacy_online : Bool

abbrev pub nothing_reported : NodeActivityReport
nothing_reported = record {
  skipped = false;
  unified = false;
  legacy_traffic = false;
  legacy_online = false;
}

pub record NodeActivityFailure : Type 0 where
  pub tag : Text
  pub error : Text

pub record NodeActivityBatchReport : Type 0 where
  pub reported : ℕ
  pub skipped : ℕ
  pub failures : List NodeActivityFailure

pub record NodeActivitySender (S : Type 0) : Type 0 where
  pub report_snapshot : List UserTraffic → BTreeMap ℕ (List Text) → S → Result Text Bool × S
  pub report_user_traffic : List UserTraffic → S → Result Text (Unit {0}) × S
  pub report_online_users : BTreeMap ℕ (List Text) → S → Result Text (Unit {0}) × S

-- `NodeActivitySnapshot::is_empty`
abbrev pub is_idle : NodeActivitySnapshot → Bool
is_idle snapshot = is_empty snapshot.traffic && is_empty snapshot.online

module _ {S : Type 0} (sender : NodeActivitySender S) (snapshot : NodeActivitySnapshot) where
  -- The last part of `report_activity_with_fallback`.
  unfoldable pub report_online : NodeActivityReport → S → Result Text NodeActivityReport × S
  report_online report s =
      let (sent, s1) = sender.report_online_users snapshot.online s in
      if is_empty snapshot.online
      then (ok report, s)
      else elim sent as (λ _. Result Text NodeActivityReport × S) [
        | err e ↦ (err e, s1)
        | ok _ ↦ (ok (record report { legacy_online = true }), s1)
      ]

  -- The part before it, once the panel has no unified route.
  unfoldable pub report_legacy : S → Result Text NodeActivityReport × S
  unfolding report_online
  report_legacy s =
      let (sent, s1) = sender.report_user_traffic snapshot.traffic s in
      if is_empty snapshot.traffic
      then report_online nothing_reported s
      else elim sent as (λ _. Result Text NodeActivityReport × S) [
        | err e ↦ (err e, s1)
        | ok _ ↦ report_online (record nothing_reported { legacy_traffic = true }) s1
      ]

  unfoldable pub report_activity_with_fallback : S → Result Text NodeActivityReport × S
  unfolding report_legacy
  report_activity_with_fallback s =
      let (sent, s1) = sender.report_snapshot snapshot.traffic snapshot.online s in
      if is_idle snapshot
      then (ok (record nothing_reported { skipped = true }), s)
      else elim sent as (λ _. Result Text NodeActivityReport × S) [
        | err e ↦ (err e, s1)
        | ok unified ↦
            if unified
            then (ok (record nothing_reported { unified = true }), s1)
            else report_legacy s1
      ]

module _ {C W : Type 0} (snapshots : Snapshots)
    (report_one : NodeActivityTarget C
      → NodeActivitySnapshot
      → W
      → Result Text NodeActivityReport × W) where
  abbrev pub count :
      Text → Result Text NodeActivityReport → NodeActivityBatchReport → NodeActivityBatchReport
  count tag (err e) batch = record batch {
    failures = batch.failures ++ record { tag = tag; error = e } ∷ [];
  }
  count tag (ok report) batch =
      if report.skipped
      then record batch { skipped = batch.skipped + 1 }
      else record batch { reported = batch.reported + 1 }

  -- One round of the loop over the targets.
  unfoldable pub report_target :
      NodeActivityTarget C → NodeActivityBatchReport × W → NodeActivityBatchReport × W
  report_target target (batch, w) = elim (get target.tag snapshots) [
    | none ↦ (record batch { skipped = batch.skipped + 1 }, w)
    | some snapshot ↦
        let (result, w1) = report_one target snapshot w in (count target.tag result batch, w1)
  ]

  unfoldable pub report_targets :
      List (NodeActivityTarget C) → NodeActivityBatchReport × W → NodeActivityBatchReport × W
  unfolding report_target
  report_targets [] state = state
  report_targets (target ∷ targets) state = report_targets targets (report_target target state)

  unfoldable pub report_activity_batch_with :
      List (NodeActivityTarget C) → W → NodeActivityBatchReport × W
  unfolding report_targets
  report_activity_batch_with targets w =
      report_targets targets (record { reported = 0; skipped = 0; failures = [] }, w)

-- The records whose node's report failed.
unfoldable pub failed_keli_core_records :
    List InboundPlan
    → List KeliCoreTrafficRecord
    → NodeActivityBatchReport
    → List KeliCoreTrafficRecord
unfolding keli_core_record_report_tag
failed_keli_core_records inbounds records batch =
    let failed_tags : BTreeMap Text (Unit {0}) = collect (map (λ f. (f.tag, tt)) batch.failures) in
    if is_empty batch.failures
    then []
    else keep
        (λ r. elim (keli_core_record_report_tag inbounds r) as (λ _. Bool) [
          | none ↦ false
          | some tag ↦ contains_key tag failed_tags
        ])
        records
