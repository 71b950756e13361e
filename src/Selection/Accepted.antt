-- ===== src/Selection/Accepted.antt =====
-- What `Execute` promises of the report that it returns.
use job_time_stock_watcher.Base.{
  Bool, false, not, ◌||◌, ◌⊎◌, inl, inr, List, Option, none, some, Text, is_empty, unless, ◌≡◌,
  refl, sym, ap,
}
use job_time_stock_watcher.Secondstage.{validate_model_inputs, StageError}
use job_time_stock_watcher.Selection.{
  Config, Input, Report, ExecuteError, context_over, unsupported_contract, no_raw, not_encoded,
  bad_models, engine_failed, result_number,
}
use job_time_stock_watcher.Selection.Inputs.{is_supported, codes_of, check_input}
use job_time_stock_watcher.Selection.Results.{check_report}
use job_time_stock_watcher.Selection.Execution.{
  Engine, Turn, with_models, models_of, model_error, prepared, proceed, with_copy, with_provenance,
  judge_report, run_frozen, execute,
}
use job_time_stock_watcher.Selection.Contract.{unless-none, not-false, IsInput, check_input-IsInput}
use job_time_stock_watcher.Selection.Reports.{IsReport, check_report-IsReport}

proceed-inr :
    (o : Option ExecuteError) (x : ExecuteError ⊎ Report) (r : Report)
    → proceed o x ≡ inr r
    → (o ≡ none) × (x ≡ inr r)
proceed-inr none x r h = (refl, h)
proceed-inr (some e) x r h = let impossible : inl e ≡ inr r = h in cc

copy-inr :
    (o : Option Input) (run : Input → ExecuteError ⊎ Report) (r : Report)
    → with_copy o run ≡ inr r
    → (frozen : Input) × (o ≡ some frozen) × (run frozen ≡ inr r)
copy-inr none run r h = let impossible : inl not_encoded ≡ inr r = h in cc
copy-inr (some frozen) run r h = (frozen, refl, h)

report_of : Report → ExecuteError ⊎ Report → Report
report_of fallback (inl e) = fallback
report_of fallback (inr r) = r

model_error-none : (o : Option StageError) → model_error o ≡ none → o ≡ none
model_error-none none h = refl
model_error-none (some e) h = let impossible : some (bad_models e) ≡ none = h in cc

-- The report is what the engine answered to a copy of the input, with the provenance added.
pub record IsAccepted (copy : Input → Option Input) (digest : Config → Text × Text) (e : Engine)
    (t : Turn) (build : Text) (i : Input) (r : Report) : Type 0 where
  pub frozen : Input
  pub copied : copy (prepared t i) ≡ some frozen
  pub answer : Report
  pub answered : e.analyze frozen ≡ inr answer
  pub returned : r ≡ with_provenance digest e.descriptor (prepared t i).config build answer
  pub in_time : (t.over_before ≡ false) × (t.over_after ≡ false)
  pub models : validate_model_inputs (models_of (with_models t i).models) ≡ none
  pub input : IsInput e.descriptor (prepared t i) frozen
  pub report : IsReport e.descriptor (prepared t i) (codes_of frozen.histories) answer

judge_report-Accepted :
    (copy : Input → Option Input) (encodes : Report → Bool) (digest : Config → Text × Text)
    (e : Engine) (t : Turn) (build : Text) (i : Input) (available : List Text)
    (answer : Text ⊎ Report) (r : Report)
    → judge_report copy encodes digest e t build i available answer ≡ inr r
    → (q : Report) × (answer ≡ inr q)
      × (r ≡ with_provenance digest e.descriptor i.config build q)
      × (t.over_after ≡ false)
      × IsReport e.descriptor i available q
unfolding judge_report report_of
judge_report-Accepted copy encodes digest e t build i available (inl failure) r h =
    let impossible : inl (engine_failed failure) ≡ inr r = h in cc
judge_report-Accepted copy encodes digest e t build i available (inr q) r h =
    let result : ExecuteError ⊎ Report =
      inr (with_provenance digest e.descriptor i.config build q) in
    let (over, rest) = proceed-inr (unless (not t.over_after) context_over) _ r h in
    let (checked, rest) = proceed-inr (check_report e.descriptor i available q) _ r rest in
    let (_, rest) = proceed-inr (unless (encodes q) result_number) result r rest in
    (
      q,
      refl,
      sym (ap (report_of q) rest),
      not-false t.over_after (unless-none _ context_over over),
      check_report-IsReport e.descriptor i available q checked,
    )

-- A report that `Execute` returns is the answer of the engine to a copy of the prepared input, with
-- the provenance added, while the context was not over. That input has histories of different
-- configured stocks, all of them valid and as of the day, and valid minute histories of those
-- stocks, of final bars until that day, of which those of 5 and 30 minutes pass
-- `ValidateMinutePair`. The stocks that the report selects and ranks are different ones with a
-- history; so are the candidates of its first stage, as many as its status and budget allow. The
-- candidates of its second stage are different candidates of the first, and their ranks are exactly
-- the numbers from 1 to the number of them.
pub execute-IsAccepted :
    (copy : Input → Option Input) (encodes : Report → Bool) (digest : Config → Text × Text)
    (e : Engine) (t : Turn) (build : Text) (i : Input) (r : Report)
    → execute copy encodes digest e t build i ≡ inr r
    → IsAccepted copy digest e t build i r
unfolding execute run_frozen
execute-IsAccepted copy encodes digest e t build i r h =
    let (over, rest) = proceed-inr (unless (not t.over_before) context_over) _ r h in
    let (_, rest) =
      proceed-inr (unless (is_supported e.descriptor i) unsupported_contract) _ r rest in
    let (_, rest) =
      proceed-inr (unless (not e.descriptor.raw_required || not (is_empty i.raw)) no_raw) _ r
        rest in
    let (models, rest) =
      proceed-inr (model_error (validate_model_inputs (models_of (with_models t i).models))) _ r
        rest in
    let (frozen, copied, rest) =
      copy-inr (copy (prepared t i)) (run_frozen copy encodes digest e t build (prepared t i)) r
        rest in
    let (input, rest) = proceed-inr (check_input e.descriptor (prepared t i) frozen) _ r rest in
    let (q, answered, returned, late, report) =
      judge_report-Accepted copy encodes digest e t build (prepared t i) (codes_of frozen.histories)
        (e.analyze frozen) r rest in
    record {
      frozen = frozen;
      copied = copied;
      answer = q;
      answered = answered;
      returned = returned;
      in_time = (not-false t.over_before (unless-none _ context_over over), late);
      models = model_error-none _ models;
      input = check_input-IsInput e.descriptor (prepared t i) frozen input;
      report = report;
    }
