-- ===== src/Base/Tables.antt =====
-- Hash maps with texts for keys, of which the program only looks keys up: functions.
use mathlib.Core.Bool.{Bool, true, false}
use mathlib.Core.Option.{Option, none, some}
use yidika.Base.Tests.{if◌then◌else◌}
use yidika.Base.Strings.{Text, text_eq}

abbrev pub Table : Type 0 → Type 0
Table V = Text → Option V

abbrev pub no_entries : {V : Type 0} → Table V
no_entries x = none

-- `HashMap::insert`
abbrev pub put : {V : Type 0} → Text → V → Table V → Table V
put x v m y = if text_eq x y then some v else m y

-- `HashMap::contains_key`
abbrev pub has_key : {V : Type 0} → Text → Table V → Bool
has_key x m = elim (m x) [ none ↦ false | some v ↦ true ]
