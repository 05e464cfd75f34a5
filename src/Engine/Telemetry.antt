-- ===== src/Engine/Telemetry.antt =====
-- The sampler's decisions: `run` of engine/crates/muxdeck-engine/src/telemetry.rs, one tick at a time. The
-- readings are answers of the `sysinfo` library, and 64-bit floats are a parameter.
use muxdeck.Prelude.{
  ℕ, zero, suc, ◌+◌, Bool, false, not, ltb, ◌==◌, nat_eq, if◌then◌else◌, List, [], ◌∷◌, ◌/◌,
}
use muxdeck.Protocol.Settings.{Settings}

abbrev pub minimum_interval : ℕ
minimum_interval = 200

-- The time between two samples, in milliseconds.
unfoldable pub wanted : Settings → ℕ
wanted s =
    if ltb s.telemetry_interval_ms minimum_interval
    then minimum_interval
    else s.telemetry_interval_ms

-- One turn of the loop: the settings are read, and whether a socket listens; the time since the last
-- sample becomes another, and a sample is published or not.
unfoldable pub tick : Settings → Bool → ℕ → ℕ × Bool
unfolding wanted
tick s has_listeners before =
    let elapsed = before + minimum_interval in
    if not s.telemetry_enabled
    then (elapsed, false)
    else if ltb elapsed (wanted s)
    then (elapsed, false)
    else (0, has_listeners)

-- Turns of the loop, each with the settings it reads and whether a socket listens then: the time that
-- is counted since the last sample, and for each turn whether it publishes a sample.
unfoldable pub run : List (Settings × Bool) → ℕ → ℕ × List Bool
unfolding tick
run [] elapsed = (elapsed, [])
run ((s, has_listeners) ∷ turns) elapsed =
    let (elapsed', published) = tick s has_listeners elapsed in
    let (last, samples) = run turns elapsed' in (last, published ∷ samples)

-- What the code uses of `f64`, and what `sysinfo` reads.
pub record Floats (Float : Type 0) : Type 0 where
  pub zero_percent : Float
  pub percent_of : ℕ → ℕ → Float
  pub round_to_tenths : Float → Float

pub record TelemetryUpdate (Float : Type 0) : Type 0 where
  pub ts : ℕ
  pub cpu_pct : Float
  pub ram_pct : Float

pub record Reading (Float : Type 0) : Type 0 where
  pub total_memory : ℕ
  pub used_memory : ℕ
  pub global_cpu_usage : Float

unfoldable pub sample : {Float : Type 0} → Floats Float → ℕ → Reading Float → TelemetryUpdate Float
sample floats now_seconds system =
    let ram =
      if system.total_memory == 0
      then floats.zero_percent
      else floats.percent_of system.used_memory system.total_memory in
    record {
      ts = now_seconds;
      cpu_pct = floats.round_to_tenths system.global_cpu_usage;
      ram_pct = floats.round_to_tenths ram;
    }

-- An element a number of times, in front of a list.
unfoldable pub repeat : {A : Type 0} → ℕ → A → List A → List A
repeat zero x xs = xs
repeat (suc n) x xs = x ∷ repeat n x xs

-- The turns that a sample takes, the last one included.
abbrev pub turns_per_sample : Settings → ℕ
turns_per_sample s = (wanted s + 199) / 200
