-- ===== src/Sandbox/Rail/Port.antt =====
-- SepaRailPort of src/ports/sepa_rail_port.py, what it promises, and the sandbox rail over any engine
-- as one.
use banxe_payment_core.Prelude.{◌≡◌, ap, Option, List, [], ℕ_comparable, list_comparable}
use banxe_payment_core.Exec.{Result, ok, Exec}
use banxe_payment_core.Python.{Text}
use banxe_payment_core.Sandbox.Engine.Port.{PaymentEnginePort}
use banxe_payment_core.Sandbox.Rail
use banxe_payment_core.Sandbox.Rail.{SepaOutgoingIntent, SepaRailStatusRecord, Submission}
use banxe_payment_core.Sandbox.Rail.Outgoing.{run, submit_outgoing-again}

-- A rail that keeps its state, and that of the engine that it consumes, in `S`.
pub record SepaRailPort (S : Type 0) : Type 0 where
  pub submit_outgoing : Submission → Exec S SepaOutgoingIntent
  pub get_rail_status : Text → S → Option SepaRailStatusRecord
  pub list_outgoing : S → List SepaOutgoingIntent

-- "Same file_dedup_key returns the same rail intent", and changes nothing.
pub record Contract {S : Type 0} (rail : SepaRailPort S) : Type 0 where
  pub again :
      (q r : Submission) (s : S) (i : SepaOutgoingIntent)
      → (rail.submit_outgoing q s).0 ≡ ok i
      → r.file_dedup_key ≡ q.file_dedup_key
      → rail.submit_outgoing r (rail.submit_outgoing q s).1 ≡ (ok i, (rail.submit_outgoing q s).1)

module _ {E : Type 0} (engine : PaymentEnginePort E) where
  abbrev beside :
      E → Result SepaOutgoingIntent × Rail.Rail → Result SepaOutgoingIntent × (E × Rail.Rail)
  beside e (t, r) = (t, (e, r))

  abbrev pub sandbox_rail : SepaRailPort (E × Rail.Rail)
  sandbox_rail = record {
    submit_outgoing = λ q (e, r). beside e (Rail.submit_outgoing (engine.list_intents e) q r);
    get_rail_status = λ id (e, r). Rail.get_rail_status id r;
    list_outgoing = λ (e, r). Rail.list_outgoing r;
  }

  -- The sandbox rail keeps the contract beside any engine.
  pub sandbox_rail-Contract : Contract sandbox_rail
  unfolding run
  sandbox_rail-Contract = record {
    again = λ q r (e, s) i h k. ap (beside e) (submit_outgoing-again engine q e s i [] r h k);
  }
