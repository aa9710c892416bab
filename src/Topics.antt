-- ===== src/Topics.antt =====
-- The MQTT topics of a device: src/constants/mqtt-topics.ts. A regular expression of the source is a
-- parser that returns what its first group captures.
pub mod Parsing
pub mod RoundTrip
use aio_t_cloud.Base.{
  Text, codes, ◌==◌, ◌++◌, ℕ, suc, zero, ◌+◌, ◌/◌, ◌%◌, Bool, true, false, not, Option, none, some,
  ◌&&◌, List, [], ◌∷◌, nat_eq, leb, if◌then◌else◌, is_truthy,
}

abbrev pub slash : ℕ
slash = b'/'

-- `devices/${deviceId}` and what follows it.
abbrev pub device_topic : Text → Text → Text
device_topic device_id suffix = codes "devices/" ++ (device_id ++ suffix)

unfoldable pub default_telemetry_topic : Text → Text
default_telemetry_topic d = device_topic d (codes "/telemetry")

unfoldable pub default_command_topic : Text → Text
default_command_topic d = device_topic d (codes "/command")

unfoldable pub default_status_topic : Text → Text
default_status_topic d = device_topic d (codes "/status")

unfoldable pub default_event_topic : Text → Text
default_event_topic d = device_topic d (codes "/event")

-- A number in a template literal, in decimal. `n` rounds are enough for `n`.
unfoldable pub digits_of : ℕ → ℕ → Text → Text
digits_of zero n done = (b'0' + n % 10) ∷ done
digits_of (suc fuel) n done =
    let more = digits_of fuel (n / 10) ((b'0' + n % 10) ∷ done) in
    if leb n 9 then (b'0' + n) ∷ done else more

unfoldable pub decimal : ℕ → Text
unfolding digits_of
decimal n = digits_of n n []

unfoldable pub default_channel_command_topic : Text → ℕ → Text
unfolding decimal
default_channel_command_topic d channel =
    device_topic d (codes "/channel/" ++ (decimal channel ++ codes "/command"))

unfoldable pub default_ota_topic : Text → Text
default_ota_topic d = device_topic d (codes "/ota")

unfoldable pub default_ota_status_topic : Text → Text
default_ota_status_topic d = device_topic d (codes "/ota/status")

-- What is left of a text after a prefix.
unfoldable pub strip_prefix : Text → Text → Option Text
strip_prefix [] s = some s
strip_prefix (c ∷ p) [] = none
strip_prefix (c ∷ p) (d ∷ s) = if nat_eq c d then strip_prefix p s else none

-- The longest prefix whose units pass a test, and the rest: `[^/]+` and `\d+`, less the `+`.
unfoldable pub span : (ℕ → Bool) → Text → Text × Text
span p [] = ([], [])
span p (c ∷ s) = if p c then (c ∷ (span p s).0, (span p s).1) else ([], c ∷ s)

abbrev pub not_slash : ℕ → Bool
not_slash c = not (nat_eq c slash)

abbrev pub is_digit : ℕ → Bool
is_digit c = leb b'0' c && leb c b'9'

-- `/^devices\/([^/]+)<rest>$/`, for a test of what follows the device.
unfoldable pub device_and : (Text → Bool) → Text × Text → Option Text
device_and rest (d, s) = if is_truthy d && rest s then some d else none

unfoldable pub device_then : (Text → Bool) → Text → Option Text
unfolding strip_prefix span device_and
device_then rest topic = elim (strip_prefix (codes "devices/") topic) [
  | none ↦ none
  | some s ↦ device_and rest (span not_slash s)
]

unfoldable pub telemetry_topic_regex : Text → Option Text
unfolding device_then
telemetry_topic_regex = device_then (λ s. s == codes "/telemetry")

unfoldable pub command_topic_regex : Text → Option Text
unfolding device_then
command_topic_regex = device_then (λ s. s == codes "/command")

unfoldable pub status_topic_regex : Text → Option Text
unfolding device_then
status_topic_regex = device_then (λ s. s == codes "/status")

unfoldable pub event_topic_regex : Text → Option Text
unfolding device_then
event_topic_regex = device_then (λ s. s == codes "/event")

-- `\/channel\/(\d+)\/command$`
unfoldable pub is_channel_command : Text → Bool
unfolding strip_prefix span
is_channel_command s = elim (strip_prefix (codes "/channel/") s) [
  | none ↦ false
  | some t ↦ is_truthy (span is_digit t).0 && (span is_digit t).1 == codes "/command"
]

unfoldable pub channel_command_topic_regex : Text → Option Text
unfolding device_then is_channel_command
channel_command_topic_regex = device_then is_channel_command

unfoldable pub ota_topic_regex : Text → Option Text
unfolding device_then
ota_topic_regex = device_then (λ s. s == codes "/ota")

unfoldable pub ota_status_topic_regex : Text → Option Text
unfolding device_then
ota_status_topic_regex = device_then (λ s. s == codes "/ota/status")
