-- ===== src/Config/Valid.antt =====
-- config.py: what the settings of a service are.
use tqtk_price_streaming.Prelude.{
  ℕ, ◌≡◌, ◌≢◌, ◌≤◌, ◌↔◌, ◌⊎◌, inl, inr, refl, sym, ap, subst, ◌∙◌, Bool, true, Option, none, some,
  [], ◌++◌, ◌==◌, ==_iff, Result, ok, err, Bool-cases, Option-cases, arith, if◌then◌else◌,
}
use tqtk_price_streaming.Prelude.Text.{Str, lit, str_eq, strip, is_space}
use tqtk_price_streaming.Prelude.Int.{ℤ, pos, negsuc}
use tqtk_price_streaming.Prelude.Sorting.{contains}
use tqtk_price_streaming.Config.{
  Environ, env_prefix, default_host, default_port, log_levels, Problem, not_a_level, Errors,
  ServiceConfig, as_text, setting, checked, reject_blank_service_name, port_of, log_level_of,
  with_field, service_name_of, runtime_host_of, runtime_port_of, level_of, make_service,
  service_config,
}

-- The value is that of the variable, or the default of a variable that is not set.
abbrev pub IsRead : {A : Type 0} → (Str → Option A) → Environ → Str → A → A → Type 0
IsRead {A} parse environ field default a =
    ((text : Str) × (environ (env_prefix ++ field) ≡ some text) × (parse text ≡ some a))
    ⊎ ((environ (env_prefix ++ field) ≡ none) × (default ≡ a))

pub setting_iff :
    {A : Type 0} (parse : Str → Option A) (environ : Environ) (field : Str) (default a : A)
    → (setting parse environ field (some default) ≡ ok a) ↔ IsRead parse environ field default a
unfolding setting
setting_iff parse environ field default a = elim (Option-cases (environ (env_prefix ++ field))) [
  | inl unset ↦
      rw (unset, setting)
        (
          λ h. inr (refl, cc h),
          λ r. elim r [ inl (text, set, read) ↦ absurd cc | inr (_, same) ↦ ap ok same ],
        )
  | inr (text, set) ↦ elim (Option-cases (parse text)) [
    | inl fails ↦ (
      λ h. absurd (ground (arith, set, fails)),
      λ r. elim r [
        | inl (t, set', read) ↦
            let same : text ≡ t = cc (set, set') in absurd (cc (ap parse same, fails, read))
        | inr (unset, _) ↦ absurd (cc (set, unset))
      ],
    )
    | inr (x, reads) ↦ (
      λ h. inl (text, set, ground (arith, set, reads)),
      λ r. elim r [
        | inl (t, set', read) ↦
            let same : text ≡ t = cc (set, set') in
            rw (set, setting) (rw reads (cc (ap parse same, reads, read)))
        | inr (unset, _) ↦ absurd (cc (set, unset))
      ],
    )
  ]
]

pub with_field_iff :
    {A B : Type 0} (make : Result Errors (A → B)) (field : Str) (value : Result Problem A) (b : B)
    → (with_field make field value ≡ ok b)
      ↔ ((f : A → B) × (a : A) × (make ≡ ok f) × (value ≡ ok a) × (f a ≡ b))
unfolding with_field
with_field_iff (ok f) field (ok a) b = (
  λ h. (f, a, refl, refl, cc h),
  λ (g, x, m, v, e).
      let functions : f ≡ g = cc m in
      let values : a ≡ x = cc v in ap ok (ap (λ k. k a) functions ∙ ap g values ∙ e),
)
with_field_iff (ok f) field (err e) b = (λ h. cc, λ (g, a, m, v, e'). cc)
with_field_iff (err es) field (ok a) b = (λ h. cc, λ (g, x, m, v, e'). cc)
with_field_iff (err es) field (err e) b = (λ h. cc, λ (g, a, m, v, e'). cc)

checked_iff :
    {A B : Type 0} (check : A → Result Problem B) (value : Result Problem A) (b : B)
    → (checked check value ≡ ok b) ↔ ((a : A) × (value ≡ ok a) × (check a ≡ ok b))
unfolding checked
checked_iff check (ok a) b =
    (λ h. (a, refl, h), λ (x, same, h). let values : a ≡ x = cc same in ap check values ∙ h)
checked_iff check (err e) b = (λ h. cc, λ (a, h, k). cc)

-- A check that keeps the good values of a field.
pub kept_iff :
    {A B : Type 0} (parse : Str → Option A) (environ : Environ) (field : Str) (default : A)
    (check : A → Result Problem B) (inject : B → A) (Good : B → Type 0) (b : B)
    → ((a : A) → (check a ≡ ok b) ↔ ((a ≡ inject b) × Good b))
    → (checked check (setting parse environ field (some default)) ≡ ok b)
      ↔ (IsRead parse environ field default (inject b) × Good b)
kept_iff parse environ field default check inject Good b each = (
  λ h.
      let (a, read, passed) =
        (checked_iff check (setting parse environ field (some default)) b).0 h in
      let (same, good) = (each a).0 passed in
      (
        subst (IsRead parse environ field default) same
            ((setting_iff parse environ field default a).0 read),
        good,
      ),
  λ (read, good). (checked_iff check (setting parse environ field (some default)) b).1 (
    inject b,
    (setting_iff parse environ field default (inject b)).1 read,
    (each (inject b)).1 (refl, good),
  ),
)

pub test-kept :
    {A : Type 0} (test : A → Bool) (e : Problem) (a value : A)
    → ((if test a then ok a else err e) ≡ ok value) ↔ ((a ≡ value) × (test value ≡ true))
test-kept test e a value = elim (Bool-cases (test a)) [
  | inl passes ↦ rw passes (
    λ h. let same : a ≡ value = cc h in (same, ap test (sym same) ∙ passes),
    λ (same, _). ap ok same,
  )
  | inr fails ↦
      rw fails (λ h. absurd cc, λ (same, passes). absurd (cc (ap test same, fails, passes)))
]

name-kept :
    (name value : Str)
    → (reject_blank_service_name name ≡ ok value) ↔ ((name ≡ value) × (strip is_space value ≢ []))
unfolding reject_blank_service_name
name-kept name value = elim (Bool-cases (strip is_space name == [])) [
  | inl empty ↦ (
    λ h. absurd (ground arith),
    λ (same, filled).
        absurd
          (filled (ap (strip is_space) (sym same) ∙ (==_iff (strip is_space name) []).0 empty)),
  )
  | inr filled ↦
      rw (filled, reject_blank_service_name)
        (
          λ h.
              let same : name ≡ value = cc h in
              (
                same,
                λ e.
                    absurd
                      (ground (arith, ==_iff (strip is_space name) [], ap (strip is_space) same)),
              ),
          λ (same, _). ap ok same,
        )
]

port-kept : (z : ℤ) (n : ℕ) → (port_of z ≡ ok n) ↔ ((z ≡ pos n) × (n ≤ 65535))
unfolding port_of
port-kept (pos m) n = (λ h. ground arith, λ h. ground arith)
port-kept (negsuc m) n = (λ h. cc, λ h. cc (h.0))

level-kept :
    (text value : Str)
    → (log_level_of text ≡ ok value) ↔ ((text ≡ value) × (contains value log_levels ≡ true))
unfolding log_level_of
level-kept text value = test-kept (λ t. contains t log_levels) not_a_level text value

module _ (to_int : Str → Option ℤ) (environ : Environ) (name : Str) where
  -- The settings of the base, from the environment and within their bounds.
  pub record IsService (c : ServiceConfig) : Type 0 where
    pub service_name : IsRead as_text environ (lit "service_name") name c.service_name
    pub not_blank : strip is_space c.service_name ≢ []
    pub runtime_host : IsRead as_text environ (lit "runtime_host") default_host c.runtime_host
    pub runtime_port :
        IsRead to_int environ (lit "runtime_port") (pos default_port) (pos c.runtime_port)
    pub in_range : c.runtime_port ≤ 65535
    pub log_level : IsRead as_text environ (lit "log_level") (lit "INFO") c.log_level
    pub known : contains c.log_level log_levels ≡ true

  name-eq-ok :
      (value : Str)
      → (service_name_of to_int environ (some name) ≡ ok value)
        ↔ (IsRead as_text environ (lit "service_name") name value × (strip is_space value ≢ []))
  unfolding service_name_of
  name-eq-ok value =
      kept_iff as_text environ (lit "service_name") name reject_blank_service_name (λ v. v)
        (λ v. strip is_space v ≢ []) value (λ a. name-kept a value)

  port-eq-ok :
      (value : ℕ)
      → (runtime_port_of to_int environ ≡ ok value) ↔ (
          IsRead to_int environ (lit "runtime_port") (pos default_port) (pos value)
          × (value ≤ 65535))
  unfolding runtime_port_of
  port-eq-ok value =
      kept_iff to_int environ (lit "runtime_port") (pos default_port) port_of pos (λ n. n ≤ 65535)
        value (λ z. port-kept z value)

  level-eq-ok :
      (value : Str)
      → (level_of to_int environ ≡ ok value) ↔ (
          IsRead as_text environ (lit "log_level") (lit "INFO") value
          × (contains value log_levels ≡ true))
  unfolding level_of
  level-eq-ok value =
      kept_iff as_text environ (lit "log_level") (lit "INFO") log_level_of (λ v. v)
        (λ v. contains v log_levels ≡ true) value (λ a. level-kept a value)

  pub service_config_iff :
      (c : ServiceConfig) → (service_config to_int environ (some name) ≡ ok c) ↔ IsService c
  unfolding service_config runtime_host_of with_field
  service_config_iff c = (
    λ h.
        let (f3, level, m3, v3, e3) =
          (with_field_iff _ (lit "log_level") (level_of to_int environ) c).0 h in
        let (f2, port, m2, v2, e2) =
          (with_field_iff _ (lit "runtime_port") (runtime_port_of to_int environ) f3).0 m3 in
        let (f1, host, m1, v1, e1) =
          (with_field_iff _ (lit "runtime_host") (runtime_host_of to_int environ) f2).0 m2 in
        let (f0, value, m0, v0, e0) =
          (with_field_iff (ok make_service) (lit "service_name")
              (service_name_of to_int environ (some name)) f1).0
            m1 in
        let made : make_service ≡ f0 = cc m0 in
        let all_of_it =
          ap (λ f. f value host port level) made
          ∙ ap (λ f. f host port level) e0
          ∙ ap (λ f. f port level) e1
          ∙ ap (λ f. f level) e2
          ∙ e3 in
        let (named, filled) = (name-eq-ok value).0 v0 in
        let (ported, ranged) = (port-eq-ok port).0 v2 in
        let (levelled, listed) = (level-eq-ok level).0 v3 in
        subst IsService all_of_it (record {
          service_name = named;
          not_blank = filled;
          runtime_host = (setting_iff as_text environ (lit "runtime_host") default_host host).0 v1;
          runtime_port = ported;
          in_range = ranged;
          log_level = levelled;
          known = listed;
        }),
    λ s.
        let n = (name-eq-ok c.service_name).1 (s.service_name, s.not_blank) in
        let h =
          (setting_iff as_text environ (lit "runtime_host") default_host c.runtime_host).1
            s.runtime_host in
        let p = (port-eq-ok c.runtime_port).1 (s.runtime_port, s.in_range) in
        let l = (level-eq-ok c.log_level).1 (s.log_level, s.known) in rw (n, p, l, h) refl,
  )
