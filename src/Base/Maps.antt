-- ===== src/Base/Maps.antt =====
-- A Go map keyed by strings, as the function that looks a key up. The code reads such maps by
-- key and ranges over one only to delete entries, which is `retain`.
use mathlib.Core.Bool.{Bool}
use mathlib.Core.Option.{Option, none, some}
use fin_arch.Base.Tests.{if◌then◌else◌}
use fin_arch.Base.Texts.{Text, text_eq}

module _ {ℓ} {V : Type ℓ} where
  abbrev pub update : (Text → Option V) → Text → V → Text → Option V
  update m k v q = if text_eq k q then some v else m q

  abbrev pub erase : (Text → Option V) → Text → Text → Option V
  erase m k q = if text_eq k q then none else m q

  abbrev pub keep_if : (V → Bool) → Option V → Option V
  keep_if p none = none
  keep_if p (some v) = if p v then some v else none

  -- `for k, v := range m { if !p(v) { delete(m, k) } }`
  abbrev pub retain : (V → Bool) → (Text → Option V) → Text → Option V
  retain p m q = keep_if p (m q)
