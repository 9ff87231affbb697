-- ===== src/Router/Rules.antt =====
-- The rule of a point in the configuration, as firmware/src/bacnet_router.rs looks it up.
use micro_bacnet_bridge.Base.{ℕ, ◌≡◌, ◌≢◌, ◌⊎◌, ◌↔◌, inl, inr, refl, ap, ◌∙◌}
use micro_bacnet_bridge.Base.{arith, List, [], ◌∷◌, ◌++◌, All, Bool, true}
use micro_bacnet_bridge.Base.{false, ◌&&◌, ◌==◌, Option, none, some, Bool-cases}
use micro_bacnet_bridge.Slice.{bytes_eq, bytes_eq_iff}
use micro_bacnet_bridge.Bacnet.{ObjectId, type_code}
use micro_bacnet_bridge.Pipeline.{PointMode, passthrough, Processor}
use micro_bacnet_bridge.Config.{
  Convertor, PointRule, BridgeConfig, is_blank_text, find_convertor, resolve_rule, first_rule,
  find_point_rule_for_device,
}
use micro_bacnet_bridge.Config.Laws.{first_rule-append, find_convertor-append}
use micro_bacnet_bridge.Router.{rule_of}

-- `x` is the first of `xs` that has a property.
pub record First {A : Type 0} (P : A → Type 0) (xs : List A) (x : A) : Type 0 where
  pub before : List A
  pub after : List A
  pub whole : xs ≡ before ++ (x ∷ after)
  pub others : All (λ (y : A). ¬ P y) before
  pub this : P x

-- A rule that is written for a point of a device.
abbrev pub Names : ℕ → ObjectId → PointRule → Type 0
Names device_id id r =
    (r.device_id ≡ device_id)
    × (r.object_type ≡ type_code id.object_type)
    × (r.object_instance ≡ id.instance_num)

-- The processors that a convertor's identifier stands for: none for a blank or an unknown one.
abbrev pub Converts : BridgeConfig → List ℕ → List Processor → Type 0
Converts config id ps =
    ((id ≢ [])
      × ((c : Convertor) × First (λ (o : Convertor). o.id ≡ id) config.convertors c
          × (ps ≡ c.processors)))
    ⊎ (((id ≡ []) ⊎ All (λ (o : Convertor). o.id ≢ id) config.convertors) × (ps ≡ []))

-- How the configuration wants a point of a device treated: by the first rule for it, and as it is
-- where there is no such rule or no configuration.
abbrev pub Treats : Option BridgeConfig → ℕ → ObjectId → PointMode → List Processor → Type 0
Treats config device_id id mode ps =
    ((config ≡ none) × (mode ≡ passthrough) × (ps ≡ []))
    ⊎ ((c : BridgeConfig) × (config ≡ some c)
        × ((All (λ (r : PointRule). ¬ Names device_id id r) c.points
              × (mode ≡ passthrough)
              × (ps ≡ []))
            ⊎ ((rule : PointRule) × First (Names device_id id) c.points rule
                × (mode ≡ rule.mode)
                × Converts c rule.convertor_id ps)))

All-implied :
    {A : Type 0} {P Q : A → Type 0} (xs : List A) → ((x : A) → P x → Q x) → All P xs → All Q xs
All-implied [] f h = tt
All-implied (x ∷ xs) f (hx, h) = (f x hx, All-implied xs f h)

other_text : (id s : List ℕ) → s ≢ id → bytes_eq s id ≡ false
other_text id s ne = ground (arith, bytes_eq_iff s id, ne)

no_convertor :
    (id : List ℕ) (convertors : List Convertor)
    → All (λ (o : Convertor). bytes_eq o.id id ≡ false) convertors
    → find_convertor id convertors ≡ []
unfolding find_convertor
no_convertor id [] h = refl
no_convertor id (c ∷ convertors) (n, h) = rw (n) (no_convertor id convertors h)

no_rule :
    (config : BridgeConfig) (matches : PointRule → Bool) (rules : List PointRule)
    → All (λ (r : PointRule). matches r ≡ false) rules
    → first_rule config matches rules ≡ (passthrough, [])
unfolding first_rule
no_rule config matches [] h = refl
no_rule config matches (r ∷ rules) (n, h) = rw (n) (no_rule config matches rules h)

blank_is_empty : (id : List ℕ) → is_blank_text id ≡ true → id ≡ []
blank_is_empty [] e = refl
blank_is_empty (c ∷ id) e = ground (arith, e)

-- The processors of a rule.
resolve_rule-Converts :
    (config : BridgeConfig) (rule : PointRule) (ps : List Processor)
    → Converts config rule.convertor_id ps
    → resolve_rule config rule ≡ (rule.mode, ps)
unfolding resolve_rule
resolve_rule-Converts config rule ps (inl (ne, (c, f, e))) =
    let id = rule.convertor_id in
    let full : is_blank_text id ≡ false = elim (Bool-cases (is_blank_text id)) [
      | inl blank ↦ absurd (ne (blank_is_empty id blank))
      | inr full ↦ full
    ] in
    let found : find_convertor id config.convertors ≡ c.processors =
      ap (find_convertor id) f.whole
      ∙ find_convertor-append id f.before c f.after
          (All-implied f.before (λ (o : Convertor) n. other_text id o.id n) f.others)
          ((bytes_eq_iff c.id id).1 f.this) in
    rw (full, found, e) refl
resolve_rule-Converts config rule ps (inr (inl blank, e)) =
    let empty : is_blank_text rule.convertor_id ≡ true = ap is_blank_text blank in
    rw (empty, e) refl
resolve_rule-Converts config rule ps (inr (inr others, e)) =
    let id = rule.convertor_id in
    let nothing : find_convertor id config.convertors ≡ [] =
      no_convertor id config.convertors
        (All-implied config.convertors (λ (o : Convertor) n. other_text id o.id n) others) in
    elim (Bool-cases (is_blank_text id)) [
      | inl blank ↦ rw (blank, e) refl
      | inr full ↦ rw (full, nothing, e) refl
    ]

Names-test :
    (device_id : ℕ) (id : ObjectId) (r : PointRule)
    → (((r.device_id == device_id)
          && (r.object_type == type_code id.object_type)
          && (r.object_instance == id.instance_num))
        ≡ true)
      ↔ Names device_id id r
Names-test device_id id r = ground arith

other_rule :
    (device_id : ℕ) (id : ObjectId) (r : PointRule)
    → ¬ Names device_id id r
    → ((r.device_id == device_id)
        && (r.object_type == type_code id.object_type)
        && (r.object_instance == id.instance_num))
      ≡ false
other_rule device_id id r n = ground (arith, n)

pub rule_of-Treats :
    (config : Option BridgeConfig) (device_id : ℕ) (id : ObjectId) (mode : PointMode)
    (ps : List Processor)
    → Treats config device_id id mode ps
    → rule_of config device_id id ≡ (mode, ps)
unfolding rule_of find_point_rule_for_device
rule_of-Treats config device_id id mode ps (inl (e, m, p)) = rw (e, m, p) refl
rule_of-Treats config device_id id mode ps (inr (c, e, inl (others, m, p))) =
    rw (e, m, p)
      (no_rule c _ c.points
        (All-implied c.points (λ (r : PointRule) n. other_rule device_id id r n) others))
rule_of-Treats config device_id id mode ps (inr (c, e, inr (rule, f, m, h))) =
    rw (e, f.whole, m)
      (first_rule-append c _ f.before rule f.after
          (All-implied f.before (λ (r : PointRule) n. other_rule device_id id r n) f.others)
          ((Names-test device_id id rule).1 f.this)
        ∙ resolve_rule-Converts c rule ps h)
