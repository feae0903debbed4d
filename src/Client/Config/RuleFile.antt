-- ===== src/Client/Config/RuleFile.antt =====
-- One rule file of the configuration, against its faults and what it says.
use echo_proxy_core.Base.{
  ◌≡◌, ap, Bool, true, false, ◌&&◌, Option, none, some, List, [], ◌∷◌, map, Bytes, if◌then◌else◌,
  Result, ok, err, or_default, Outcome,
}
use echo_proxy_core.Client.Config.{Exit, default_tags, load_rules}

-- The faults that end the program: those of a file that the configuration names.
abbrev pub required_faults :
    {E : Type 0} → (E → Exit) → (Bytes → List E) → Option (Bytes × Bool) → List Exit
required_faults failed faults none = []
required_faults failed faults (some (path, true)) = map failed (faults path)
required_faults failed faults (some (path, false)) = []

abbrev pub is_usable : {E : Type 0} → List E → Bool
is_usable [] = true
is_usable (e ∷ es) = false

-- Whether the rules of a file apply: there is a file, it has no fault, and they say so.
abbrev pub listed : {E : Type 0} → (Bytes → List E) → (Bytes → Bool) → Option (Bytes × Bool) → Bool
listed faults says none = false
listed faults says (some (path, required)) = is_usable (faults path) && says path

module _ {E A : Type 0} (failed : E → Exit) (nothing : A) (load : Bytes → List Bytes → Result E A)
    (tags : Option (List Bytes)) (faults : Bytes → List E) (says : Bytes → Bool)
    (value : A → Bool) where
  of_file :
      (path : Bytes) (required : Bool) (fs : List E) (r : Result E A)
      → value nothing ≡ false
      → Outcome (λ a. value a ≡ says path) fs r
      → Outcome
          (λ a. value a ≡ (is_usable fs && says path))
          (if required then map failed fs else [])
          (elim r [ ok a ↦ ok a | err e ↦ if required then err (failed e) else ok nothing ])
  of_file path true [] (ok a) n h = h
  of_file path true [] (err e) n h = elim h [ ]
  of_file path true (f ∷ fs) (ok a) n h = elim h [ ]
  of_file path true (f ∷ fs) (err e) n h = ap failed h
  of_file path false [] (ok a) n h = h
  of_file path false [] (err e) n h = elim h [ ]
  of_file path false (f ∷ fs) (ok a) n h = elim h [ ]
  of_file path false (f ∷ fs) (err e) n h = n

  pub load_rules-Outcome :
      (file : Option (Bytes × Bool))
      → value nothing ≡ false
      → ((path : Bytes)
          → Outcome
              (λ a. value a ≡ says path)
              (faults path)
              (load path (or_default tags default_tags)))
      → Outcome
          (λ a. value a ≡ listed faults says file)
          (required_faults failed faults file)
          (load_rules failed nothing load file tags)
  unfolding load_rules
  load_rules-Outcome none n h = n
  load_rules-Outcome (some (path, true)) n h =
      of_file path true (faults path) (load path (or_default tags default_tags)) n (h path)
  load_rules-Outcome (some (path, false)) n h =
      of_file path false (faults path) (load path (or_default tags default_tags)) n (h path)
