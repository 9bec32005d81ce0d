-- ===== src/Tests/Reads.antt =====
-- The import of a shard with one pair.
use crocks.Prelude.{
  ◌≡◌, refl, sym, true, false, Option, none, some, Bytes, [], ◌∷◌, beq, blt, if◌then◌else◌,
}
use crocks.Server.Shard.{Entry, entry_value, Shard, opened, get}
use crocks.Server.Shard.Reads.{IsImported, get-behind}
use crocks.Tests.Server.{memory, former, fresh}

abbrev nothing : Bytes → Option Entry
nothing k = none

abbrev importing : Shard memory
importing = record fresh { importing = true }

blt-nil : (k : Bytes) → blt [] k ≡ false → former k ≡ none
unfolding blt beq
blt-nil [] h = refl
blt-nil (b ∷ k) h = absurd (cc h)

importing-IsImported : IsImported memory nothing former importing
unfolding opened
importing-IsImported = record { upto = λ k h. sym (blt-nil k h); past = λ k h. refl }

get-behind_example :
    (if (get memory importing (5 ∷ [])).1
      then entry_value (former (5 ∷ []))
      else (get memory importing (5 ∷ [])).0)
    ≡ some (9 ∷ [])
unfolding beq opened
get-behind_example =
    get-behind memory nothing former importing (5 ∷ []) importing-IsImported refl (λ e. cc e)
