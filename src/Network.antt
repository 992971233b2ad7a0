-- ===== src/Network.antt =====
-- network/models.py: what the network scan found.
use pudge_gaming_manager.Prelude.{
  ℕ, ◌/◌, String, Bool, true, false, not, ◌&&◌, ◌||◌, Option, none, some, List, [], ◌∷◌, length,
  ltb, ◌==◌, ◌<>◌, filled, if◌then◌else◌,
}
use pudge_gaming_manager.Floats.{Floats}

pub data LinkKind : Type 0 where
  wired wireless other : LinkKind

-- The media numbers of ntddndis.h.
unfoldable pub link_kind : (ndis_physical_medium : ℕ) → LinkKind
link_kind n = if n == 14 then wired else if n == 1 || n == 8 || n == 9 then wireless else other

pub record AdapterInfo : Type 0 where
  pub if_index : ℕ
  pub name : String
  pub description : String
  pub kind : LinkKind
  pub link_speed_bps : Option ℕ
  pub full_duplex : Option Bool
  pub is_virtual : Bool

unfoldable pub link_speed_mbps : AdapterInfo → Option ℕ
link_speed_mbps a = elim a.link_speed_bps [
  | none ↦ none
  | some bps ↦ if bps == 0 then none else some (bps / 1000000)
]

abbrev pub link_label : LinkKind → String
link_label wired = "Ethernet"
link_label wireless = "Wi-Fi"
link_label other = "Other"

abbrev pub is_some : {A : Type 0} → Option A → Bool
is_some none = false
is_some (some a) = true

pub record PingStats (F : Type 0) : Type 0 where
  pub target : String
  pub label : String
  pub sent : ℕ
  pub rtts_ms : List F
  pub unreliable_reason : String

module _ {F : Type 0} where
  unfoldable pub trustworthy : PingStats F → Bool
  trustworthy p = not (filled p.unreliable_reason)

  unfoldable pub received : PingStats F → ℕ
  received p = length p.rtts_ms

  unfoldable pub reachable : PingStats F → Bool
  reachable p = ltb 0 (received p)

module _ (N : Floats) where
  open N use {F, whole, sub, mul, div, below}

  -- `sent - received` is taken on floats, which hold both counts exactly.
  unfoldable pub loss_percent : PingStats F → F
  loss_percent p =
      if p.sent == 0
      then whole 0
      else div (mul (whole 100) (sub (whole p.sent) (whole (received p)))) (whole p.sent)

  unfoldable pub avg_ms : PingStats F → Option F
  avg_ms p = if received p == 0 then none else some (div (N.total p.rtts_ms) (whole (received p)))

  unfoldable pub distance : F → F → F
  distance a b = if below (sub b a) (whole 0) then sub (whole 0) (sub b a) else sub b a

  unfoldable pub steps : F → List F → List F
  steps a [] = []
  steps a (b ∷ bs) = distance a b ∷ steps b bs

  unfoldable pub jitter_of : List F → Option F
  jitter_of [] = none
  jitter_of (a ∷ []) = none
  jitter_of (a ∷ b ∷ bs) =
      let gaps = steps a (b ∷ bs) in some (div (N.total gaps) (whole (length gaps)))

  unfoldable pub jitter_ms : PingStats F → Option F
  jitter_ms p = jitter_of p.rtts_ms

  unfoldable pub avg_text : Option F → String
  avg_text none = "<1 мс"
  avg_text (some avg) = if below avg (whole 1) then "<1 мс" else N.rounded avg <> " мс"

  unfoldable pub jitter_text : Option F → String
  jitter_text none = ""
  jitter_text (some j) = ", джиттер " <> N.tenths j <> " мс"

  unfoldable pub summary : PingStats F → String
  summary p =
      if trustworthy p
      then if reachable p
        then avg_text (avg_ms p)
          <> " сред., потери "
          <> N.rounded (loss_percent p)
          <> "%"
          <> jitter_text (jitter_ms p)
        else "нет ответа от " <> p.target <> " (отправлено " <> N.digits p.sent <> ")"
      else "не измеряется: " <> p.unreliable_reason

pub record NetworkSnapshot (F : Type 0) : Type 0 where
  pub uplink : Option AdapterInfo
  pub gateway : Option String
  pub path : Option AdapterInfo
  pub gateway_ping : Option (PingStats F)
  pub internet_ping : Option (PingStats F)
  pub warnings : List String
  pub unavailable_reason : String

module _ {F : Type 0} where
  unfoldable pub connected : NetworkSnapshot F → Bool
  connected n = is_some n.path || is_some n.uplink

  unfoldable pub tunnelled : NetworkSnapshot F → Bool
  tunnelled n = elim n.path [
    | none ↦ false
    | some p ↦
        p.is_virtual && (elim n.uplink [ none ↦ true | some u ↦ not (p.if_index == u.if_index) ])
  ]
