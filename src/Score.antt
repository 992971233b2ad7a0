-- ===== src/Score.antt =====
-- core/scoring/score.py: the Gaming Score, over the floats `N`.
pub mod Parts
pub mod Link
pub mod Range
pub mod Exclusion
unfoldable pub use Parts.*
unfoldable pub use Link.*
use pudge_gaming_manager.Prelude.{
  ◌≡◌, ℕ, String, Bool, true, false, not, Option, none, some, List, [], ◌∷◌, ◌++◌, map, select,
  if◌then◌else◌,
}
use pudge_gaming_manager.Floats.{Floats}
use pudge_gaming_manager.Health.{HardwareSnapshot}
use pudge_gaming_manager.Network.{NetworkSnapshot, is_some}

-- The keys of `DEFAULT_WEIGHTS`, in its order, and their weights.
pub data Key : Type 0 where
  gpu cpu network ram storage display system : Key

abbrev pub default_weight : Key → ℕ
default_weight gpu = 25
default_weight cpu = 20
default_weight network = 15
default_weight ram = 10
default_weight storage = 10
default_weight display = 10
default_weight system = 10

pub record GamingScore (F : Type 0) : Type 0 where
  pub value : Option F
  pub components : List (Component F)
  pub excluded : List String

module _ (N : Floats) where
  open N use {F, whole, mul, div, at_most}

  -- `c.score * c.weight`, which is asked of available components only.
  unfoldable pub products : List (Component F) → List F
  products [] = []
  products (c ∷ cs) = elim c.score [ none ↦ products cs | some s ↦ mul s c.weight ∷ products cs ]

  unfoldable pub available : Component F → Bool
  available c = is_some c.score

  unfoldable pub effective_weight : List (Component F) → F
  effective_weight cs = N.total (map (λ c. c.weight) (select available cs))

  -- The mean of the usable components by their weights.
  unfoldable pub mean : List (Component F) → Option F
  mean [] = none
  mean (c ∷ cs) =
      let total_weight = N.total (map (λ d. d.weight) (c ∷ cs)) in
      if at_most total_weight (whole 0)
      then none
      else some (div (N.total (products (c ∷ cs))) total_weight)

  -- The end of `compute_score`.
  unfoldable pub overall : List (Component F) → Option F
  overall cs = mean (select available cs)

  -- `{**DEFAULT_WEIGHTS, **(weights or {})}`
  unfoldable pub active : (weights : Key → Option F) → Key → F
  active weights k = elim (weights k) [ some w ↦ w | none ↦ whole (default_weight k) ]

  unfoldable pub components_of :
      (says_nvidia : String → Bool)
      → HardwareSnapshot F
      → (weights : Key → Option F) → (extra : List (Component F)) → Option (NetworkSnapshot F)
      → List (Component F)
  components_of says_nvidia s weights extra scan =
      (score_network N scan (active weights network)
        ∷ score_gpu N says_nvidia s (active weights gpu)
        ∷ score_cpu N s (active weights cpu)
        ∷ score_ram N s (active weights ram)
        ∷ score_storage N s (active weights storage)
        ∷ score_display N s (active weights display)
        ∷ score_system N s (active weights system)
        ∷ [])
      ++ extra

  unfoldable pub compute_score :
      (says_nvidia : String → Bool)
      → HardwareSnapshot F
      → (weights : Key → Option F) → (extra : List (Component F)) → Option (NetworkSnapshot F)
      → GamingScore F
  compute_score says_nvidia s weights extra scan =
      let cs = components_of says_nvidia s weights extra scan in
      record {
        value = overall cs;
        components = cs;
        excluded = map (λ c. c.label) (select (λ c. not (available c)) cs);
      }
