-- ===== src/Selection/Execution.antt =====
-- `Execute` and `DefaultEngine`. What encoding/json makes of a value is a parameter: `copy` is the input
-- that is read back from its encoding, `encodes` whether the report can be encoded, and `digest` the
-- SHA-256 and the text of the configuration. The answer of the engine, the models that are read from
-- files and whether the caller's context is over are data of a `Turn`.
use job_time_stock_watcher.Base.{
  Bool, true, not, ◌&&◌, ◌||◌, ◌⊎◌, inl, inr, List, [], ◌∷◌, Option, none, some, is_some, Text,
  codes, text_eq, is_empty, unless, if◌then◌else◌,
}
use job_time_stock_watcher.Secondstage.{ModelInput, StageError, validate_model_inputs}
use job_time_stock_watcher.Selection.{
  Descriptor, Config, Input, Report, ExecuteError, context_over, unsupported_contract, no_raw,
  not_encoded, bad_models, engine_failed, result_number,
}
use job_time_stock_watcher.Selection.Inputs.{is_supported, codes_of, check_input}
use job_time_stock_watcher.Selection.Results.{check_report}

pub record Engine : Type 0 where
  pub descriptor : Descriptor
  pub analyze : Input → Text ⊎ Report

pub record Turn : Type 0 where
  pub over_before : Bool
  pub over_after : Bool
  pub loaded : List ModelInput

-- The descriptor of the engine of a configuration.
unfoldable pub default_engine : Config → Option Descriptor
unfolding text_eq
default_engine c =
    let id = if c.strategy_enabled then codes "short_horizon_v1" else codes "leader_daily_v1" in
    if not (text_eq c.analysis_engine (codes "auto"))
      && not (is_empty c.analysis_engine)
      && not (text_eq c.analysis_engine id)
    then none
    else some (record {
      id = id;
      version = 1;
      periods =
          if c.strategy_enabled
          then codes "day" ∷ codes "30" ∷ codes "5" ∷ []
          else codes "day" ∷ [];
      adjust = c.daily_adjust;
      raw_required = c.strategy_enabled;
      final_only = true;
      missing_policy = codes "exclude";
    })

abbrev pub safe_config : Config → Config
safe_config c = record c { data_dir = [] }

abbrev pub with_models : Turn → Input → Input
with_models t i =
    if not (is_some i.models) && i.config.first_stage_enabled && i.config.second_stage_enabled
    then record i { models = some t.loaded }
    else i

abbrev pub models_of : Option (List ModelInput) → List ModelInput
models_of none = []
models_of (some ms) = ms

abbrev pub model_error : Option StageError → Option ExecuteError
model_error none = none
model_error (some e) = some (bad_models e)

-- The input that is copied for the engine.
abbrev pub prepared : Turn → Input → Input
prepared t i = let j = with_models t i in record j { version = 1; config = safe_config j.config }

-- The result, where a check has no error.
abbrev pub proceed : Option ExecuteError → ExecuteError ⊎ Report → ExecuteError ⊎ Report
proceed none r = r
proceed (some e) _ = inl e

abbrev pub with_copy : Option Input → (Input → ExecuteError ⊎ Report) → ExecuteError ⊎ Report
with_copy none _ = inl not_encoded
with_copy (some frozen) run = run frozen

abbrev pub with_provenance : (Config → Text × Text) → Descriptor → Config → Text → Report → Report
with_provenance digest d c build r =
    let (id, parameters) = digest c in
    record r {
      provenance =
          some (record { engine = d; config_id = id; build = build; parameters = parameters });
    }

module _ (copy : Input → Option Input) (encodes : Report → Bool)
    (digest : Config → Text × Text) where
  -- What the answer of the engine comes to.
  unfoldable pub judge_report :
      Engine → Turn → Text → Input → List Text → Text ⊎ Report → ExecuteError ⊎ Report
  unfolding check_report
  judge_report e t build i available (inl failure) = inl (engine_failed failure)
  judge_report e t build i available (inr r) = proceed (unless (not t.over_after) context_over) (
      proceed (check_report e.descriptor i available r) (
        proceed (unless (encodes r) result_number)
          (inr (with_provenance digest e.descriptor i.config build r))))

  unfoldable pub run_frozen : Engine → Turn → Text → Input → Input → ExecuteError ⊎ Report
  unfolding judge_report check_input
  run_frozen e t build i frozen =
      proceed (check_input e.descriptor i frozen)
        (judge_report e t build i (codes_of frozen.histories) (e.analyze frozen))

  unfoldable pub execute : Engine → Turn → Text → Input → ExecuteError ⊎ Report
  unfolding run_frozen is_supported validate_model_inputs
  execute e t build i = proceed (unless (not t.over_before) context_over) (
      proceed (unless (is_supported e.descriptor i) unsupported_contract) (
        proceed (unless (not e.descriptor.raw_required || not (is_empty i.raw)) no_raw) (
          proceed (model_error (validate_model_inputs (models_of (with_models t i).models)))
            (with_copy (copy (prepared t i)) (run_frozen e t build (prepared t i))))))
