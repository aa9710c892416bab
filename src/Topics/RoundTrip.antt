-- ===== src/Topics/RoundTrip.antt =====
-- Each topic parser accepts exactly the topics that its template builds.
use aio_t_cloud.Base.{
  Text, codes, ◌==◌, ◌++◌, eq_iff, eq_refl, ℕ, zero, suc, ◌+◌, ◌/◌, ◌%◌, ◌<◌, true, some, [], ◌∷◌,
  ◌≡◌, ◌↔◌, refl, arith, All, Bool-cases, inl, inr, ap, ◌∙◌, is_truthy, leb,
}
use aio_t_cloud.Topics.{
  slash, device_topic, device_then, default_telemetry_topic, default_command_topic,
  default_status_topic, default_event_topic, default_channel_command_topic, default_ota_topic,
  default_ota_status_topic, decimal, digits_of, is_digit, telemetry_topic_regex,
  command_topic_regex, status_topic_regex, event_topic_regex, is_channel_command,
  channel_command_topic_regex, ota_topic_regex, ota_status_topic_regex,
}
use aio_t_cloud.Topics.Parsing.{IsTopicLevel, device_then-topic, device_then-some, span_run}

device_then_iff :
    (rest topic d : Text)
    → (device_then (λ s. s == (slash ∷ rest)) topic ≡ some d)
      ↔ ((topic ≡ device_topic d (slash ∷ rest)) × IsTopicLevel d)
device_then_iff rest topic d = (
  λ h.
      let (s, e, fits, level) = device_then-some _ topic d h in
      (e ∙ ap (device_topic d) ((eq_iff _ _).0 fits), level),
  λ h. ap (device_then _) h.0 ∙ device_then-topic _ d rest h.1 ∙ rw (eq_refl (slash ∷ rest)),
)

module _ (topic d : Text) where
  -- A topic is read as the telemetry topic of a device exactly if the template builds it for that
  -- device, and the device's name is not empty and holds no slash.
  pub telemetry_topic_regex_iff :
      (telemetry_topic_regex topic ≡ some d)
      ↔ ((topic ≡ default_telemetry_topic d) × IsTopicLevel d)
  unfolding telemetry_topic_regex default_telemetry_topic
  telemetry_topic_regex_iff = device_then_iff (codes "telemetry") topic d

  pub command_topic_regex_iff :
      (command_topic_regex topic ≡ some d) ↔ ((topic ≡ default_command_topic d) × IsTopicLevel d)
  unfolding command_topic_regex default_command_topic
  command_topic_regex_iff = device_then_iff (codes "command") topic d

  pub status_topic_regex_iff :
      (status_topic_regex topic ≡ some d) ↔ ((topic ≡ default_status_topic d) × IsTopicLevel d)
  unfolding status_topic_regex default_status_topic
  status_topic_regex_iff = device_then_iff (codes "status") topic d

  pub event_topic_regex_iff :
      (event_topic_regex topic ≡ some d) ↔ ((topic ≡ default_event_topic d) × IsTopicLevel d)
  unfolding event_topic_regex default_event_topic
  event_topic_regex_iff = device_then_iff (codes "event") topic d

  pub ota_topic_regex_iff :
      (ota_topic_regex topic ≡ some d) ↔ ((topic ≡ default_ota_topic d) × IsTopicLevel d)
  unfolding ota_topic_regex default_ota_topic
  ota_topic_regex_iff = device_then_iff (codes "ota") topic d

  -- A topic is read as the OTA status topic of a device exactly if the template builds it for that
  -- device, and the device's name is not empty and holds no slash.
  pub ota_status_topic_regex_iff :
      (ota_status_topic_regex topic ≡ some d)
      ↔ ((topic ≡ default_ota_status_topic d) × IsTopicLevel d)
  unfolding ota_status_topic_regex default_ota_status_topic
  ota_status_topic_regex_iff = device_then_iff (codes "ota/status") topic d

-- The decimal digits of a number: every unit is a digit, and there is at least one.
abbrev IsNumeral : Text → Type 0
IsNumeral s = (is_truthy s ≡ true) × All (λ c. is_digit c ≡ true) s

digit-is_digit : (n : ℕ) → n < 10 → is_digit (b'0' + n) ≡ true
digit-is_digit n h = ground arith

digits_of-IsNumeral :
    (fuel n : ℕ) (done : Text)
    → All (λ c. is_digit c ≡ true) done
    → IsNumeral (digits_of fuel n done)
unfolding digits_of
digits_of-IsNumeral zero n done h = (refl, (digit-is_digit (n % 10) (omega arith), h))
digits_of-IsNumeral (suc fuel) n done h = elim (Bool-cases (leb n 9)) [
  | inl one ↦ rw one (refl, (digit-is_digit n (ground arith), h))
  | inr more ↦ rw more (
      digits_of-IsNumeral fuel (n / 10) ((b'0' + n % 10) ∷ done)
        (digit-is_digit (n % 10) (omega arith), h))
]

pub is_channel_command-decimal :
    (channel : ℕ)
    → is_channel_command (codes "/channel/" ++ (decimal channel ++ codes "/command")) ≡ true
unfolding is_channel_command
is_channel_command-decimal channel =
    let numeral : IsNumeral (decimal channel) =
      unfold decimal in digits_of-IsNumeral channel channel [] tt in
    rw (span_run is_digit (decimal channel) slash (codes "command") numeral.1 refl)
      (rw (numeral.0, eq_refl (codes "/command")))

-- The parser of channel commands accepts the topic of every channel, for a device whose name is not
-- empty and holds no slash.
pub channel_command_topic_regex_topic :
    (d : Text) (channel : ℕ)
    → IsTopicLevel d
    → channel_command_topic_regex (default_channel_command_topic d channel) ≡ some d
unfolding channel_command_topic_regex default_channel_command_topic
channel_command_topic_regex_topic d channel h =
    device_then-topic is_channel_command d _ h ∙ rw (is_channel_command-decimal channel)
