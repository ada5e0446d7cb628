-- ===== src/Report/Delivery.antt =====
-- What src/report.rs says of the snapshots that it sent, one by one and as a batch.
use kelinode_rs.Prelude.{
  ℕ, ◌+◌, Bool, true, false, not, Option, none, some, List, [], ◌∷◌, if◌then◌else◌, is_empty,
  length, length-append, append-nil, ◌++◌, All, ap, ◌≡◌, refl, sym, ◌∙◌, arith, if_intro,
}
use kelinode_rs.Prelude.Text.{Text}
use kelinode_rs.Prelude.Result.{Result, ok, err}
use kelinode_rs.Prelude.Order.{text_ord}
use kelinode_rs.BTreeMap.{BTreeMap, get}
use kelinode_rs.Report.{NodeActivitySnapshot, Snapshots, UserTraffic}
use mathlib.Core.Path.{subst}
use kelinode_rs.Report.Batch.{
  NodeActivityTarget, NodeActivityReport, NodeActivityBatchReport, NodeActivitySender,
  nothing_reported, is_idle, report_online, report_legacy, report_activity_with_fallback, count,
  report_target, report_targets, report_activity_batch_with,
}

abbrev pub counted : NodeActivityBatchReport → ℕ
counted batch = batch.reported + batch.skipped + length batch.failures

module _ {C W : Type 0} (snapshots : Snapshots)
    (report_one : NodeActivityTarget C
      → NodeActivitySnapshot
      → W
      → Result Text NodeActivityReport × W) where
  counted-count :
      (tag : Text) (result : Result Text NodeActivityReport) (batch : NodeActivityBatchReport)
      → counted (count snapshots report_one tag result batch) ≡ counted batch + 1
  counted-count tag (err e) batch =
      ground (arith, length-append batch.failures (record { tag = tag; error = e } ∷ []))
  counted-count tag (ok report) batch = ground arith

  counted-report_target :
      (target : NodeActivityTarget C) (state : NodeActivityBatchReport × W)
      → counted (report_target snapshots report_one target state).0 ≡ counted state.0 + 1
  unfolding report_target
  counted-report_target target (batch, w) = found_cases (get target.tag snapshots)
    where
      found_cases :
          (found : Option NodeActivitySnapshot)
          → counted
              (elim found as (λ _. NodeActivityBatchReport × W) [
                | none ↦ (record batch { skipped = batch.skipped + 1 }, w)
                | some snapshot ↦ (
                  count snapshots report_one target.tag (report_one target snapshot w).0 batch,
                  (report_one target snapshot w).1,
                )
              ]).0
            ≡ counted batch + 1
      found_cases none = omega arith
      found_cases (some snapshot) = counted-count target.tag (report_one target snapshot w).0 batch

  counted-report_targets :
      (targets : List (NodeActivityTarget C)) (state : NodeActivityBatchReport × W)
      → counted (report_targets snapshots report_one targets state).0
        ≡ counted state.0 + length targets
  unfolding report_targets
  counted-report_targets [] state = omega arith
  counted-report_targets (target ∷ targets) state =
      counted-report_targets targets (report_target snapshots report_one target state)
      ∙ omega (arith, counted-report_target target state)

  -- Whatever the reports return, a batch counts each target once, as reported, skipped or failed.
  pub counted-report_activity_batch_with :
      (targets : List (NodeActivityTarget C)) (w : W)
      → counted (report_activity_batch_with snapshots report_one targets w).0 ≡ length targets
  unfolding report_activity_batch_with
  counted-report_activity_batch_with targets w =
      counted-report_targets targets (record { reported = 0; skipped = 0; failures = [] }, w)
      ∙ omega arith

-- One use of a route, with what was sent and what the panel answered.
pub data Call : Type 0 where
  snapshot_sent : List UserTraffic → BTreeMap ℕ (List Text) → Result Text Bool → Call
  traffic_sent : List UserTraffic → Result Text (Unit {0}) → Call
  online_sent : BTreeMap ℕ (List Text) → Result Text (Unit {0}) → Call

-- The same sender, with a log of its calls.
abbrev pub logged : {S : Type 0} → NodeActivitySender S → NodeActivitySender (S × List Call)
logged sender = record {
  report_snapshot = λ traffic online s.
      let (answer, s1) = sender.report_snapshot traffic online s.0 in
      (answer, (s1, s.1 ++ snapshot_sent traffic online answer ∷ []));
  report_user_traffic = λ traffic s.
      let (answer, s1) = sender.report_user_traffic traffic s.0 in
      (answer, (s1, s.1 ++ traffic_sent traffic answer ∷ []));
  report_online_users = λ online s.
      let (answer, s1) = sender.report_online_users online s.0 in
      (answer, (s1, s.1 ++ online_sent online answer ∷ []));
}

-- The error that a call was answered with.
abbrev pub refusal : Call → Option Text
refusal (snapshot_sent traffic online (ok _)) = none
refusal (snapshot_sent traffic online (err e)) = some e
refusal (traffic_sent traffic (ok _)) = none
refusal (traffic_sent traffic (err e)) = some e
refusal (online_sent online (ok _)) = none
refusal (online_sent online (err e)) = some e

module _ (snapshot : NodeActivitySnapshot) where
  -- The calls that a report tells of: none if it was skipped; one, which the panel took, if it went by
  -- the unified route; else one that the panel did not take, and those of the other two routes that
  -- it names, which the panel took.
  abbrev pub told : NodeActivityReport → List Call
  told report =
      if report.skipped
      then []
      else if report.unified
      then snapshot_sent snapshot.traffic snapshot.online (ok true) ∷ []
      else snapshot_sent snapshot.traffic snapshot.online (ok false)
        ∷ ((if report.legacy_traffic then traffic_sent snapshot.traffic (ok tt) ∷ [] else [])
            ++ (if report.legacy_online then online_sent snapshot.online (ok tt) ∷ [] else []))

  -- A report is true to the calls that were made.
  pub record IsReportOf (report : NodeActivityReport) (calls : List Call) : Type 0 where
    pub made : calls ≡ told report
    pub skipped : report.skipped ≡ is_idle snapshot
    pub unified :
        report.unified ≡ true
        → (report.skipped ≡ false)
          × (report.legacy_traffic ≡ false)
          × (report.legacy_online ≡ false)
    pub legacy :
        report.unified ≡ false
        → (report.legacy_traffic ≡ not (is_empty snapshot.traffic))
          × (report.legacy_online ≡ not (is_empty snapshot.online))

  -- An error is that of the last call, and no call before it was refused.
  pub record IsRefused (error : Text) (calls : List Call) : Type 0 where
    pub before : List Call
    pub last : Call
    pub made : calls ≡ before ++ last ∷ []
    pub refused : refusal last ≡ some error
    pub taken : All (λ call. refusal call ≡ none) before

  abbrev pub IsDelivery : Result Text NodeActivityReport → List Call → Type 0
  IsDelivery (ok report) calls = IsReportOf report calls
  IsDelivery (err error) calls = IsRefused error calls

module _ {S : Type 0} (sender : NodeActivitySender S) (snapshot : NodeActivitySnapshot) where
  abbrev Delivers : Result Text NodeActivityReport × (S × List Call) → Type 0
  Delivers r = IsDelivery snapshot r.0 r.1.1

  abbrev legacy_report : Bool → Bool → NodeActivityReport
  legacy_report traffic online = record nothing_reported {
    legacy_traffic = traffic;
    legacy_online = online;
  }

  abbrev not_taken : Call
  not_taken = snapshot_sent snapshot.traffic snapshot.online (ok false)

  abbrev traffic_taken : Bool → List Call
  traffic_taken traffic = if traffic then traffic_sent snapshot.traffic (ok tt) ∷ [] else []

  legacy_report-IsReportOf :
      (traffic online : Bool)
      → is_idle snapshot ≡ false
      → traffic ≡ not (is_empty snapshot.traffic)
      → online ≡ not (is_empty snapshot.online)
      → IsReportOf snapshot (legacy_report traffic online) (
          not_taken
          ∷ (traffic_taken traffic
              ++ (if online then online_sent snapshot.online (ok tt) ∷ [] else [])))
  legacy_report-IsReportOf traffic online h e f = record {
    made = refl;
    skipped = sym h;
    unified = λ u. cc;
    legacy = λ u. (e, f);
  }

  traffic_taken-All : (traffic : Bool) → All (λ call. refusal call ≡ none) (traffic_taken traffic)
  traffic_taken-All true = (refl, tt)
  traffic_taken-All false = tt

  report_online-Delivers :
      (traffic : Bool) (s : S)
      → is_idle snapshot ≡ false
      → traffic ≡ not (is_empty snapshot.traffic)
      → Delivers (
          report_online
            (logged sender)
            snapshot
            (legacy_report traffic false)
            (s, not_taken ∷ traffic_taken traffic))
  unfolding report_online
  report_online-Delivers traffic s h e =
      if_intro Delivers (is_empty snapshot.online)
        (λ o.
          subst (IsReportOf snapshot (legacy_report traffic false))
            (ap (λ calls. not_taken ∷ calls) (append-nil (traffic_taken traffic)))
            (legacy_report-IsReportOf traffic false h e (ground arith)))
        (λ o. sent_cases o (sender.report_online_users snapshot.online s).0)
    where
      sent_cases :
          is_empty snapshot.online ≡ false
          → (sent : Result Text (Unit {0}))
          → Delivers (elim sent as (λ _. Result Text NodeActivityReport × (S × List Call)) [
            | err e ↦ (
              err e,
              (
                (sender.report_online_users snapshot.online s).1,
                (not_taken ∷ traffic_taken traffic) ++ online_sent snapshot.online sent ∷ [],
              ),
            )
            | ok _ ↦ (
              ok (legacy_report traffic true),
              (
                (sender.report_online_users snapshot.online s).1,
                (not_taken ∷ traffic_taken traffic) ++ online_sent snapshot.online sent ∷ [],
              ),
            )
          ])
      sent_cases o (err x) = record {
        before = not_taken ∷ traffic_taken traffic;
        last = online_sent snapshot.online (err x);
        made = refl;
        refused = refl;
        taken = (refl, traffic_taken-All traffic);
      }
      sent_cases o (ok tt) = legacy_report-IsReportOf traffic true h e (ground arith)

  report_legacy-Delivers :
      (s : S)
      → is_idle snapshot ≡ false
      → Delivers (report_legacy (logged sender) snapshot (s, not_taken ∷ []))
  unfolding report_legacy
  report_legacy-Delivers s h =
      if_intro Delivers (is_empty snapshot.traffic)
        (λ o. report_online-Delivers false s h (ground arith))
        (λ o. sent_cases o (sender.report_user_traffic snapshot.traffic s).0)
    where
      sent_cases :
          is_empty snapshot.traffic ≡ false
          → (sent : Result Text (Unit {0}))
          → Delivers (elim sent as (λ _. Result Text NodeActivityReport × (S × List Call)) [
            | err e ↦ (
              err e,
              (
                (sender.report_user_traffic snapshot.traffic s).1,
                not_taken ∷ traffic_sent snapshot.traffic sent ∷ [],
              ),
            )
            | ok _ ↦ report_online (logged sender) snapshot (legacy_report true false) (
              (sender.report_user_traffic snapshot.traffic s).1,
              not_taken ∷ traffic_sent snapshot.traffic sent ∷ [],
            )
          ])
      sent_cases o (err x) = record {
        before = not_taken ∷ [];
        last = traffic_sent snapshot.traffic (err x);
        made = refl;
        refused = refl;
        taken = (refl, tt);
      }
      sent_cases o (ok tt) = report_online-Delivers true _ h (ground arith)

  -- Whatever the panel answers, the calls that are made are those that the report tells of, with the
  -- answers that it tells of: an idle snapshot makes none; else the unified route is asked, and
  -- only if the panel does not take it does each part that is not empty go by its own route. If there
  -- is an error in place of a report, then it is the answer to the last call, and no call before
  -- that was refused.
  pub report_activity_with_fallback-IsDelivery :
      (s : S)
      → let r = report_activity_with_fallback (logged sender) snapshot (s, []) in
        IsDelivery snapshot r.0 r.1.1
  unfolding report_activity_with_fallback
  report_activity_with_fallback-IsDelivery s =
      if_intro Delivers (is_idle snapshot)
        (λ h. record {
          made = refl;
          skipped = sym h;
          unified = λ u. cc;
          legacy = λ u. (ground arith, ground arith);
        })
        (λ h. sent_cases h (sender.report_snapshot snapshot.traffic snapshot.online s).0)
    where
      sent_cases :
          is_idle snapshot ≡ false
          → (sent : Result Text Bool)
          → Delivers (elim sent as (λ _. Result Text NodeActivityReport × (S × List Call)) [
            | err e ↦ (
              err e,
              (
                (sender.report_snapshot snapshot.traffic snapshot.online s).1,
                snapshot_sent snapshot.traffic snapshot.online sent ∷ [],
              ),
            )
            | ok unified ↦
                let s1 : S × List Call = (
                  (sender.report_snapshot snapshot.traffic snapshot.online s).1,
                  snapshot_sent snapshot.traffic snapshot.online sent ∷ [],
                ) in
                if unified
                then (ok (record nothing_reported { unified = true }), s1)
                else report_legacy (logged sender) snapshot s1
          ])
      sent_cases h (err x) = record {
        before = [];
        last = snapshot_sent snapshot.traffic snapshot.online (err x);
        made = refl;
        refused = refl;
        taken = tt;
      }
      sent_cases h (ok true) = record {
        made = refl;
        skipped = sym h;
        unified = λ u. (refl, refl, refl);
        legacy = λ u. cc;
      }
      sent_cases h (ok false) = report_legacy-Delivers _ h
