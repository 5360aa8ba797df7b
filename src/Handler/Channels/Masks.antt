-- ===== src/Handler/Channels/Masks.antt =====
-- The secrets of a channel: hidden from a client, and kept when the client sends them back hidden.
use hivepulse.Prelude.{
  String, ◌==◌, eq_iff, eq_refl, Bool-cases, inl, inr, ◌≡◌, ◌≢◌, refl, ap, arith, Bool, true, false,
  ◌||◌, ◌&&◌, Option, none, some, [], ◌∷◌, lookup, lookup-put, if◌then◌else◌,
}
use hivepulse.Domain.{ConfigMap}
use hivepulse.Repo.Notifications.{merge}
use hivepulse.Handler.Channels.{is_secret, mask_config, unmasked}

abbrev is_none : Option String → Bool
is_none none = true
is_none (some v) = false

-- A key stands once: what any Go map is.
abbrev pub distinct : ConfigMap → Bool
distinct [] = true
distinct ((k, v) ∷ rest) = is_none (lookup k rest) && distinct rest

abbrev or_else : Option String → Option String → Option String
or_else none b = b
or_else (some v) b = some v

lookup-merge :
    (k : String) (old new : ConfigMap)
    → lookup k (merge old new) ≡ or_else (lookup k new) (lookup k old)
unfolding merge lookup
lookup-merge k old [] = refl
lookup-merge k old ((j, v) ∷ new) =
    ground (arith, lookup-put j k v (merge old new), lookup-merge k old new)

-- What comes back from the client, if it sends the masked map.
abbrev returned : ConfigMap → ConfigMap
returned l = unmasked (mask_config l)

-- One key of what comes back: a secret and a value that is masked already are left out.
back :
    (k j v : String) (l : ConfigMap)
    → lookup k (returned ((j, v) ∷ l)) ≡ (
        if is_secret j || v == "***"
        then lookup k (returned l)
        else if j == k
        then some v
        else lookup k (returned l))
unfolding lookup mask_config unmasked
back k j v l = elim (Bool-cases (is_secret j)) [
  | inl hidden ↦ rw hidden (ground (arith, eq_refl "***"))
  | inr shown ↦ rw shown (ground arith)
]

nothing : (k : String) → lookup k (returned []) ≡ none
unfolding lookup mask_config unmasked
nothing k = refl

absent : (k : String) (l : ConfigMap) → lookup k l ≡ none → lookup k (returned l) ≡ none
unfolding lookup
absent k [] h = nothing k
absent k ((j, v) ∷ l) h = ground (arith, back k j v l, absent k l)

stays :
    (k : String) (l : ConfigMap)
    → distinct l ≡ true
    → or_else (lookup k (returned l)) (lookup k l) ≡ lookup k l
unfolding lookup
stays k [] once = ap (λ o. or_else o none) (nothing k)
stays k ((j, v) ∷ l) once = ground (arith, back k j v l, absent k l, stays k l, eq_iff j k)

-- A new value of one key, not "***", is stored, and all other values stay.
pub masked_edit_sets :
    (j v k : String) (stored : ConfigMap)
    → distinct stored ≡ true
    → v ≢ "***"
    → lookup k (merge stored (unmasked ((j, v) ∷ mask_config stored)))
      ≡ (if j == k then some v else lookup k stored)
unfolding unmasked lookup
masked_edit_sets j v k stored once fresh =
    ground
      (arith, lookup-merge k stored ((j, v) ∷ returned stored), stays k stored once, eq_iff v "***")
