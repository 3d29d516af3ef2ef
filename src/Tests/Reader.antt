-- ===== src/Tests/Reader.antt =====
-- The reader of a single device at concrete inputs.
use slimhub_v.Prelude.{◌≡◌, refl, true, List, [], ◌∷◌, ◌++◌, map, arith, none}
use slimhub_v.Protocol.Frame.Describe.{describe_frame}
use slimhub_v.Ble.Notify.Streams.{Sent}
use slimhub_v.Script.Reader.{described}
use slimhub_v.Script.Loop.{
  Central, connecting, started, returned, raised, Event, resumes, notifies, disconnects, shuts_down,
  perform_all,
}
use slimhub_v.Script.Loop.Ending.{is_over, resumptions, shuts_down-is_over}
use slimhub_v.Script.Loop.Lines.{chunks_of, connection_describes}
use slimhub_v.Tests.Wire.{sent, chunks}

abbrev six_waits : List Event
six_waits =
    resumes (returned none)
    ∷ resumes (returned none)
    ∷ resumes raised
    ∷ resumes (returned none)
    ∷ resumes raised
    ∷ resumes (returned none)
    ∷ []

shuts_down-is_over_example :
    is_over (perform_all (disconnects ∷ [] ++ shuts_down ∷ six_waits) started).place ≡ true
unfolding resumptions
shuts_down-is_over_example = shuts_down-is_over (disconnects ∷ []) six_waits started (omega arith)

-- A reader that connects.
abbrev at_client : Central
at_client = record started { place = connecting }

abbrev notified : List Event
notified = map (λ c. notifies c) chunks ++ disconnects ∷ resumes raised ∷ []

connection_describes_example :
    described
      (perform_all (resumes (returned none) ∷ resumes (returned none) ∷ notified) at_client).lines
    ≡ described [] ++ map describe_frame (map (λ (s : Sent). s.frame) sent)
unfolding resumptions chunks_of
connection_describes_example =
    connection_describes sent notified at_client none none refl (omega arith) (omega arith, tt) refl
