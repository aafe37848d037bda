-- ===== src/Packages/Manifest.antt =====
-- packages/src/spec/mod.rs: `PackageManifest::validate`. The data of a message stand for its text.
use Prim.Native.Char.{code}
use boruna.Prelude.{
  ℕ, ◌+◌, ◌*◌, ◌-◌, ◌^◌, String, Bool, true, false, not, ◌&&◌, ◌||◌, List, [], ◌∷◌, ◌++◌, Option,
  none, some, ltb, leb, ◌==◌, if◌then◌else◌, all, length, is_none, str_eq,
}
use boruna.Prelude.BTreeMap.{BTreeMap}
use boruna.Bytecode.Capability.{from_name}
use boruna.Packages.Resolver.{PackageManifest}

-- the code points of a text
unfoldable pub codes : String → List ℕ
codes String.[] = []
codes (String.◌∷◌ c s) = code c ∷ codes s

abbrev pub is_ascii_digit : ℕ → Bool
is_ascii_digit c = leb 48 c && leb c 57

abbrev pub is_ascii_lowercase : ℕ → Bool
is_ascii_lowercase c = leb 97 c && leb c 122

-- `split('.')`
abbrev pub add_to_first : ℕ → List (List ℕ) → List (List ℕ)
add_to_first c [] = (c ∷ []) ∷ []
add_to_first c (p ∷ ps) = (c ∷ p) ∷ ps

unfoldable pub split_dots : List ℕ → List (List ℕ)
split_dots [] = [] ∷ []
split_dots (c ∷ cs) = let rest = split_dots cs in if c == 46 then [] ∷ rest else add_to_first c rest

-- `parse::<u32>`: digits after an optional `+`
unfoldable pub parse_digits : ℕ → List ℕ → Option ℕ
parse_digits acc [] = some acc
parse_digits acc (c ∷ cs) =
    let rest = parse_digits (acc * 10 + (c - 48)) cs in if is_ascii_digit c then rest else none

abbrev fits_u32 : Option ℕ → Bool
fits_u32 none = false
fits_u32 (some n) = ltb n (2 ^ 32)

abbrev are_digits : List ℕ → Bool
are_digits [] = false
are_digits (c ∷ cs) = fits_u32 (parse_digits 0 (c ∷ cs))

unfoldable pub is_u32 : List ℕ → Bool
unfolding parse_digits
is_u32 [] = false
is_u32 (c ∷ cs) = if c == 43 then are_digits cs else are_digits (c ∷ cs)

unfoldable pub is_valid_semver : String → Bool
is_valid_semver s = let parts = split_dots (codes s) in length parts == 3 && all is_u32 parts

-- a lowercase letter, then lowercase letters and digits
unfoldable pub is_valid_part : List ℕ → Bool
is_valid_part [] = false
is_valid_part (c ∷ cs) =
    is_ascii_lowercase c && all (λ d. is_ascii_lowercase d || is_ascii_digit d) cs

unfoldable pub is_valid_package_name : String → Bool
is_valid_package_name s = not (str_eq s "") && all is_valid_part (split_dots (codes s))

pub data ManifestProblem : Type 0 where
  invalid_name : String → ManifestProblem
  invalid_version : String → ManifestProblem
  no_description : ManifestProblem
  invalid_dependency : String → ManifestProblem
  invalid_dependency_version : String → String → ManifestProblem
  unknown_capability : String → ManifestProblem
  no_modules : ManifestProblem

abbrev pub unless : Bool → ManifestProblem → List ManifestProblem
unless true p = []
unless false p = p ∷ []

unfoldable pub version_problems : BTreeMap String → List ManifestProblem
version_problems [] = []
version_problems ((dep, ver) ∷ rest) =
    unless (is_valid_package_name dep) (invalid_dependency dep)
    ++ (unless (is_valid_semver ver) (invalid_dependency_version dep ver) ++ version_problems rest)

unfoldable pub capability_problems : List String → List ManifestProblem
capability_problems [] = []
capability_problems (c ∷ rest) =
    unless (not (is_none (from_name c))) (unknown_capability c) ++ capability_problems rest

-- the errors of `validate`, which succeeds if there is none
unfoldable pub validate : PackageManifest → List ManifestProblem
validate m =
    unless (is_valid_package_name m.name) (invalid_name m.name)
    ++ (unless (is_valid_semver m.version) (invalid_version m.version)
        ++ (unless (not (str_eq m.description "")) no_description
            ++ (version_problems m.dependencies
                ++ (capability_problems m.required_capabilities
                    ++ unless (not (length m.exposed_modules == 0)) no_modules))))
