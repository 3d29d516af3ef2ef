-- ===== src/Events.antt =====
-- slimhub/events.py: what the daemon passes between its parts. A timestamp, a float of seconds in
-- the source, is a number of microseconds.
use slimhub_v.Prelude.{ℕ, [], ◌∷◌, Text, Bytes, Option, none, some}
use slimhub_v.Protocol.Rawdata.{RawDataPacket}
use slimhub_v.Protocol.Frame.{AlertPacket}

pub record RawDataEvent : Type 0 where
  pub timestamp : ℕ
  pub mac : Text
  pub location : Text
  pub packet : RawDataPacket
  pub payload : Bytes
  pub device_type : Text

pub record AlertEvent : Type 0 where
  pub timestamp : ℕ
  pub mac : Text
  pub location : Text
  pub packet : AlertPacket
  pub payload : Bytes
  pub device_type : Text

pub record CommandEvent : Type 0 where
  pub address : Text
  pub command : Text
  pub location : Text

-- `text or default`, where the empty text and None count as false
abbrev pub text_or : Text → Text → Text
text_or [] d = d
text_or (c ∷ t) d = c ∷ t

abbrev pub option_or : Option Text → Text → Text
option_or none d = d
option_or (some t) d = text_or t d
