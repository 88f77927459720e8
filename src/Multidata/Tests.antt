-- ===== src/Multidata/Tests.antt =====
-- The location table at concrete entries.
use pahoa.Prelude.{ℕ, some, List, [], ◌∷◌, All, ◌≡◌, refl, arith}
use pahoa.Prelude.Result.{ok}
use pahoa.Prelude.Int.{ℤ, pos, negsuc}
use pahoa.Multidata.Locations.{LocationEntry, from_entries, declared, for_slot, get, validate}
use pahoa.Multidata.Locations.Unique.{get-declared}

abbrev entry : ℕ → ℤ → ℤ → LocationEntry
entry sender location item = record {
  location = location;
  item = item;
  sender = sender;
  receiver = 1;
  flags = 0;
}

abbrev three_entries : List LocationEntry
three_entries =
    entry 2 (pos 7) (pos 30) ∷ entry 1 (pos 9) (pos 10) ∷ entry 1 (negsuc 4) (pos 20) ∷ []

abbrev ascending : List LocationEntry
ascending = entry 1 (negsuc 4) (pos 20) ∷ entry 1 (pos 9) (pos 10) ∷ []

abbrev nine : LocationEntry
nine = entry 1 (pos 9) (pos 10)

three_entries-valid : validate (declared three_entries 2 2) ≡ ok tt
unfolding validate from_entries
three_entries-valid = refl

get-declared_example :
    All
      (λ (e : LocationEntry). get (declared three_entries 2 2) e.sender e.location ≡ some e)
      three_entries
get-declared_example =
    get-declared three_entries 2 2 (ground arith) (omega arith) three_entries-valid

nine_found : get (declared three_entries 2 2) 1 (pos 9) ≡ some nine
unfolding get for_slot from_entries
nine_found = refl
