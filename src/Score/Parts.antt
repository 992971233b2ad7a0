-- ===== src/Score/Parts.antt =====
-- core/scoring/score.py: the components of the score that come from the hardware scan.
use pudge_gaming_manager.Prelude.{
  ℕ, ◌/◌, String, Bool, true, false, Option, none, some, List, [], ◌∷◌, map, length, select, ◌is◌,
  ◌<>◌, if◌then◌else◌,
}
use pudge_gaming_manager.Floats.{Floats, lesser, greater}
use pudge_gaming_manager.Health.{
  HealthStatus, Threshold, GpuInfo, DiskInfo, MonitorInfo, DisplayMode, HardwareSnapshot, evaluate,
  describe, is_running_below_capability, primary_gpu, system_disk, critical, warning, good,
  unavailable,
}

pub record Component (F : Type 0) : Type 0 where
  pub key : String
  pub label : String
  pub score : Option F
  pub weight : F
  pub explanation : String

-- `sep.join(texts)`
unfoldable pub joined : String → List String → String
joined sep [] = ""
joined sep (t ∷ []) = t
joined sep (t ∷ u ∷ us) = t <> sep <> joined sep (u ∷ us)

-- The monitors with a current mode, and that mode.
unfoldable pub running : List MonitorInfo → List (MonitorInfo × DisplayMode)
running [] = []
running (m ∷ ms) = elim m.current_mode [ none ↦ running ms | some mode ↦ (m, mode) ∷ running ms ]

unfoldable pub penalised : MonitorInfo × DisplayMode → Bool
penalised p = is_running_below_capability p.0

module _ (N : Floats) where
  open N use {F, whole, sub, mul, div, below, rounded, digits}

  unfoldable pub component : String → String → Option F → F → String → Component F
  component key label score weight explanation = record {
    key = key;
    label = label;
    score = score;
    weight = weight;
    explanation = explanation;
  }

  -- `_clamp`
  unfoldable pub clamp : F → F
  clamp v = greater N (whole 0) (lesser N (whole 100) v)

  unfoldable pub score_cpu : HardwareSnapshot F → F → Component F
  score_cpu s weight = elim s.cpu.utilization_percent.value [
    | none ↦ component "cpu" "ЦП" none weight "загрузка не читается"
    | some u ↦
        component "cpu" "ЦП" (some (clamp (sub (whole 100) (mul (div u (whole 80)) (whole 100)))))
          weight (rounded u <> "% загрузки (эвристика: 80%+ в простое = 0)")
  ]

  unfoldable pub score_ram : HardwareSnapshot F → F → Component F
  score_ram s weight = elim s.ram.usage_percent.value [
    | none ↦ component "ram" "Память" none weight "использование не читается"
    | some u ↦
        component "ram" "Память"
          (some (
            if below (whole 40) u
            then clamp (sub (whole 100) (mul (sub u (whole 40)) (div (whole 100) (whole 50))))
            else whole 100))
          weight (rounded u <> "% занято (эвристика: 90%+ = 0)")
  ]

  unfoldable pub space_score : DiskInfo F → F → F
  space_score disk free =
      let space = clamp (mul (sub free (whole 5)) (div (whole 100) (whole 20))) in
      if disk.media_type is "HDD" then lesser N space (whole 60) else space

  unfoldable pub media_detail : DiskInfo F → String
  media_detail disk =
      if disk.media_type is "HDD"
      then ", механический системный диск"
      else if disk.media_type is "SSD"
      then ", SSD"
      else ""

  -- `disk.smart_healthy.value is False`
  unfoldable pub is_failing : DiskInfo F → Bool
  is_failing disk = elim disk.smart_healthy.value [
    | some false ↦ true
    | some true ↦ false
    | none ↦ false
  ]

  unfoldable pub score_disk : DiskInfo F → F → F → Component F
  score_disk disk free weight =
      component "storage" "Хранилище"
        (some (if is_failing disk then whole 0 else space_score disk free)) weight
        (rounded free
          <> "% свободно"
          <> media_detail disk
          <> (if is_failing disk then ", SMART сообщает о проблеме" else "")
          <> " (эвристика: 25%+ свободно = 100)")

  unfoldable pub score_storage : HardwareSnapshot F → F → Component F
  score_storage s weight =
      let unreadable = component "storage" "Хранилище" none weight "системный диск не читается" in
      elim (system_disk s) [
        | none ↦ unreadable
        | some disk ↦ elim disk.free_percent.value [
          | none ↦ unreadable
          | some free ↦ score_disk disk free weight
        ]
      ]

  unfoldable pub refresh_text : MonitorInfo × DisplayMode → String
  refresh_text p = digits p.1.refresh_hz <> " Гц"

  unfoldable pub penalty_text : MonitorInfo × DisplayMode → String
  penalty_text p =
      refresh_text p
      <> " из "
      <> (elim p.0.max_refresh_at_current_resolution.value [
        | some best ↦ digits best
        | none ↦ "None"
      ])
      <> " Гц"

  unfoldable pub score_display : HardwareSnapshot F → F → Component F
  score_display s weight = elim (running s.monitors) [
    | [] ↦ component "display" "Дисплей" none weight "монитор не найден"
    | m ∷ ms ↦
        let shown = m ∷ ms in
        elim (map penalty_text (select penalised shown)) [
          | [] ↦
              component "display" "Дисплей" (some (whole 100)) weight
                ("на максимуме (" <> joined ", " (map refresh_text shown) <> ")")
          | t ∷ ts ↦
              component "display" "Дисплей"
                (some (clamp (sub (whole 100) (mul (whole 50) (whole (length (t ∷ ts))))))) weight
                ("ниже возможностей: " <> joined "; " (t ∷ ts))
        ]
  ]

  -- The cap that the driver's own limits put on the score.
  unfoldable pub thermal_cap : HealthStatus → F → F
  thermal_cap critical value = lesser N value (whole 20)
  thermal_cap warning value = lesser N value (whole 60)
  thermal_cap good value = value
  thermal_cap unavailable value = value

  -- The threshold and the temperature, where both are known.
  unfoldable pub graded : GpuInfo F → Option (Threshold F × F)
  graded gpu = elim gpu.temperature_threshold [
    | none ↦ none
    | some t ↦ elim gpu.temperature_c.value [ none ↦ none | some c ↦ some (t, c) ]
  ]

  unfoldable pub after_thermals : Option (Threshold F × F) → F → F
  after_thermals none value = value
  after_thermals (some (t, c)) value = thermal_cap (evaluate N t (some c)) value

  unfoldable pub thermal_note : Option (Threshold F × F) → String
  thermal_note none = "температура недоступна"
  thermal_note (some (t, c)) = rounded c <> "°C (" <> describe t <> ")"

  unfoldable pub after_throttling : GpuInfo F → F → F
  after_throttling gpu value =
      if gpu.thermal_throttling
      then lesser N value (whole 25)
      else if gpu.power_throttling
      then lesser N value (whole 70)
      else value

  unfoldable pub throttling_note : GpuInfo F → List String
  throttling_note gpu =
      if gpu.thermal_throttling
      then "тепловой троттлинг сейчас" ∷ []
      else if gpu.power_throttling
      then "ограничение по питанию сейчас" ∷ []
      else []

  unfoldable pub score_vram : GpuInfo F → ℕ → F → Component F
  score_vram gpu vram weight =
      component "gpu" "ГП"
        (some (
          after_throttling gpu (
            after_thermals (graded gpu) (clamp (mul (div (whole vram) (whole 8192)) (whole 100))))))
        weight
        (joined ", " (
          (digits (vram / 1024) <> " ГБ видеопамяти")
          ∷ thermal_note (graded gpu)
          ∷ throttling_note gpu))

  unfoldable pub score_gpu : (says_nvidia : String → Bool) → HardwareSnapshot F → F → Component F
  score_gpu says_nvidia s weight = elim (primary_gpu says_nvidia s) [
    | none ↦ component "gpu" "ГП" none weight "видеокарта не найдена"
    | some gpu ↦ elim gpu.vram_total_mb.value [
      | none ↦ component "gpu" "ГП" none weight "видеопамять и телеметрия не читаются"
      | some vram ↦ score_vram gpu vram weight
    ]
  ]

  unfoldable pub score_system : HardwareSnapshot F → F → Component F
  score_system s weight = elim s.warnings [
    | [] ↦ component "system" "Система" (some (whole 100)) weight "сканирование без замечаний"
    | w ∷ ws ↦
        component "system" "Система"
          (some (clamp (sub (whole 100) (mul (whole 25) (whole (length (w ∷ ws))))))) weight
          ("предупреждений сканирования: " <> digits (length (w ∷ ws)))
  ]
