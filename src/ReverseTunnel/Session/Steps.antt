-- ===== src/ReverseTunnel/Session/Steps.antt =====
-- The broker as a machine whose next step is any of its functions, in any order.
use pspxy.Base.{ℕ, Bool, List, [], ◌∷◌, Text}
use pspxy.Uuid.{Uuid}
use pspxy.ReverseTunnel.Broker.{
  Offer, Broker, Incoming, register_provider, abort_provider_registration,
}
use pspxy.ReverseTunnel.Session.{agent_read, attach_begin, attach_end, consumer_read}

-- What may happen next, with the outcomes of the writes.
pub data Event : Type 0 where
  registers : Text → ℕ → Offer → Event
  aborts : Text → Event
  agent_sends : Bool → Bool → ℕ → Incoming → Event
  attaches : Bool → Text → Text → ℕ → Event
  resumes : Bool → ℕ → Text → ℕ → ℕ → Event
  consumer_sends : Bool → Bool → ℕ → Text → Incoming → Event

unfoldable pub step : Uuid → Event → Broker → Broker
step u (registers fresh agent offer) b = (register_provider u fresh agent offer b).1
step u (aborts id) b = abort_provider_registration id b
step u (agent_sends can_write can_detach ref msg) b =
    (agent_read u can_write can_detach ref msg b).1
step u (attaches can_write sid id cons) b = (attach_begin u can_write sid id cons b).1
step u (resumes timed_out ref sid cons k) b = (attach_end timed_out ref sid cons k b).1
step u (consumer_sends can_write can_detach ref sid msg) b =
    (consumer_read u can_write can_detach ref sid msg b).1

unfoldable pub run : Uuid → List Event → Broker → Broker
run u [] b = b
run u (e ∷ es) b = run u es (step u e b)
