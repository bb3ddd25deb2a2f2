-- ===== src/Log/Levels.antt =====
-- The filter levels.
use codex_nos.Base.{
  ℕ, ◌≡◌, refl, ap, ◌∙◌, true, ◌&&◌, length, get_or-set, ◌==◌, if◌then◌else◌, CString, strncpy, inl,
  inr, Bool-cases, arith,
}
use codex_nos.Log.{LogCtx, CompInfo, null_info, in_range, filter_of, set_comp_info}

-- Registering a component's name gives it the global level, whatever level it was set to before,
-- and leaves the level of every other component.
pub set_comp_info-filter :
    (s : LogCtx) (c d : ℕ) (name : CString)
    → length s.comp_info ≡ 256
    → filter_of (set_comp_info c name s) d
      ≡ (if c == d && in_range c then s.global_filter_level else filter_of s d)
unfolding set_comp_info filter_of
set_comp_info-filter s c d name size = elim (Bool-cases (in_range c)) [
  | inr out ↦ elim (Bool-cases (c == d)) [ inl e ↦ rw (out, e) refl | inr e ↦ rw (out, e) refl ]
  | inl inside ↦
      let v : CompInfo = record {
        name = strncpy 31 name;
        filter_level = s.global_filter_level;
        is_registered = true;
      } in
      let look = get_or-set s.comp_info c d v null_info (ground (arith, inside, size)) in
      elim (Bool-cases (c == d)) [
        | inl e ↦
            let there : in_range d ≡ true =
              ap in_range {x = d} {y = c} (ground (arith, e)) ∙ inside in
            rw (inside, look, e, there) refl
        | inr e ↦ rw (inside, look, e) refl
      ]
]
