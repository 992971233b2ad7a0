-- ===== src/Score/Link.antt =====
-- core/scoring/score.py: the component of the score that comes from the network scan.
use pudge_gaming_manager.Prelude.{
  ℕ, String, Bool, true, false, not, ◌&&◌, ◌||◌, Option, none, some, List, [], ◌∷◌, ◌++◌, ltb, ◌==◌,
  ◌<>◌, filled, or_text, if◌then◌else◌,
}
use pudge_gaming_manager.Floats.{Floats, lesser, greater}
use pudge_gaming_manager.Network.{
  wired, wireless, other, AdapterInfo, link_speed_mbps, link_label, PingStats, trustworthy,
  reachable, loss_percent, avg_ms, jitter_ms, summary, NetworkSnapshot, connected, is_some,
}
use pudge_gaming_manager.Score.Parts.{Component, component, joined, clamp}

-- `speed is not None and speed < 1000`
unfoldable pub is_slow : Option ℕ → Bool
is_slow none = false
is_slow (some speed) = ltb speed 1000

-- `full_duplex is False`
unfoldable pub is_half : Option Bool → Bool
is_half (some false) = true
is_half (some true) = false
is_half none = false

module _ (N : Floats) where
  open N use {F, whole, sub, mul, div, digits}

  -- The value and the notes so far, and whether a measurement counted.
  pub record Tally : Type 0 where
    pub value : F
    pub notes : List String
    pub measured : Bool

  unfoldable pub deduct : F → String → Tally → Tally
  deduct points text t = record t { value = sub t.value points; notes = t.notes ++ text ∷ [] }

  unfoldable pub remark : String → Tally → Tally
  remark text t = record t { notes = t.notes ++ text ∷ [] }

  unfoldable pub speed_text : Option ℕ → String
  speed_text none = ""
  speed_text (some speed) = if speed == 0 then "" else " " <> digits speed <> " Мбит/с"

  unfoldable pub by_kind : AdapterInfo → Tally → Tally
  by_kind a t = elim a.kind [
    | wireless ↦ deduct (whole 20) "Wi-Fi -20" t
    | wired ↦ if is_slow (link_speed_mbps a) then deduct (whole 20) "ниже гигабита -20" t else t
    | other ↦ t
  ]

  unfoldable pub by_uplink : Option AdapterInfo → Tally → Tally
  by_uplink none t = t
  by_uplink (some a) t =
      let t' = by_kind a (remark (link_label a.kind <> speed_text (link_speed_mbps a)) t) in
      if is_half a.full_duplex then deduct (whole 20) "half duplex -20" t' else t'

  -- `min(30.0, max(0.0, measured - free) * rate)`, where there is a measurement and a limit.
  unfoldable pub excess : (free : Option F) → (found : Option F) → (rate : F) → F → F
  excess none found rate v = v
  excess (some free) none rate v = v
  excess (some free) (some x) rate v =
      sub v (lesser N (whole 30) (mul (greater N (whole 0) (sub x free)) rate))

  unfoldable pub ping_value : PingStats F → (jitter_free latency_free : Option F) → F → F
  ping_value p jitter_free latency_free v =
      excess latency_free (avg_ms N p) (div (whole 1) (whole 2)) (
        excess jitter_free (jitter_ms N p) (whole 2)
          (sub v (lesser N (whole 60) (mul (loss_percent N p) (whole 3)))))

  -- One turn of the loop over the two pings.
  unfoldable pub by_ping :
      Option (PingStats F) → (jitter_free latency_free : Option F) → Tally → Tally
  by_ping none jitter_free latency_free t = t
  by_ping (some p) jitter_free latency_free t =
      let noted = remark (p.label <> ": " <> summary N p) t in
      if not (trustworthy p) || not (reachable p) then noted else record noted {
        value = ping_value p jitter_free latency_free noted.value;
        measured = true;
      }

  unfoldable pub tally : NetworkSnapshot F → Tally
  tally n = by_ping n.internet_ping (some (whole 5)) (some (whole 50)) (
      by_ping n.gateway_ping none none
        (by_uplink n.uplink (record { value = whole 100; notes = []; measured = false })))

  unfoldable pub score_connected : NetworkSnapshot F → F → Component F
  score_connected n weight =
      let t = tally n in
      if not (is_some n.uplink) && not t.measured
      then component N "network" "Сеть" none weight
          (or_text (joined "; " t.notes) "не удалось измерить ни канал, ни задержку")
      else component N "network" "Сеть" (some (clamp N t.value)) weight (
          joined "; " t.notes
          <> " (эвристика: потери ×3, джиттер свыше 5 мс "
          <> "×2, задержка свыше 50 мс ×0.5)")

  unfoldable pub score_network : Option (NetworkSnapshot F) → F → Component F
  score_network none weight = component N "network" "Сеть" none weight "сеть не сканировалась"
  score_network (some n) weight =
      if filled n.unavailable_reason
      then component N "network" "Сеть" none weight n.unavailable_reason
      else if not (connected n)
      then component N "network" "Сеть" (some (whole 0)) weight "нет сетевого подключения"
      else score_connected n weight
