-- ===== src/Lineage/Recorder.antt =====
-- DecisionRecorder of src/agents/_lineage.py: the sink is injected, so it is a parameter that takes
-- a record or raises. `uuid.uuid4()` and `datetime.now(UTC)` are read from the environment.
use banxe_payment_core.Prelude.{ℕ, ◌+◌, String, Option, none, some, List, [], ◌∷◌, ◌++◌}
use banxe_payment_core.Exec.{Exc, ok, raised, Exec}
use banxe_payment_core.Lineage.Types.{AgentDecisionRecord}

-- `reject taken r` is what `record(r)` raises, if it does, once `taken` has been persisted.
pub record Sink : Type 0 where
  pub uuid4 : ℕ → String
  pub now : ℕ → ℕ
  pub reject : List AgentDecisionRecord → AgentDecisionRecord → Option Exc

-- What has been persisted, in order, and how many records have been made.
pub record Journal : Type 0 where
  pub records : List AgentDecisionRecord
  pub draws : ℕ

abbrev settle : Option Exc → AgentDecisionRecord → Exec Journal AgentDecisionRecord
settle none r j = (ok r, record { records = j.records ++ r ∷ []; draws = j.draws + 1 })
settle (some e) r j = (raised e, record j { draws = j.draws + 1 })

-- `await self._recorder.record(record)`, and the record back to the caller.
unfoldable pub persist : Sink → AgentDecisionRecord → Exec Journal AgentDecisionRecord
persist sink r j = settle (sink.reject j.records r) r j
