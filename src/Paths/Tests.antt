-- ===== src/Paths/Tests.antt =====
-- Paths that crates/app-server/src/paths.rs takes and refuses, and the theorem there.
use vitna_code.Base.{
  ◌≤◌, ◌≡◌, refl, List, [], ◌∷◌, length, ok, err, All, none, some, leb, ◌&&◌, map, if◌then◌else◌, ℕ,
  ◌+◌,
}
use vitna_code.Paths.{
  Text, chars, guarded, max_depth, trim_start, trim_end, split, named, first_refusal, resolve,
}
use vitna_code.Paths.Safe.{IsPlain, resolve-IsPlain}

-- ` ./src//a\b `
abbrev given : Text
given = b' ' ∷ b'.' ∷ b'/' ∷ b's' ∷ b'r' ∷ b'c' ∷ b'/' ∷ b'/' ∷ b'a' ∷ b'\\' ∷ b'b' ∷ b' ' ∷ []

abbrev names : List Text
names = (b's' ∷ b'r' ∷ b'c' ∷ []) ∷ (b'a' ∷ []) ∷ (b'b' ∷ []) ∷ []

takes : resolve given ≡ ok names
unfolding resolve trim_start trim_end split named first_refusal
takes = refl

climbs : resolve (b'a' ∷ b'/' ∷ b'.' ∷ b'.' ∷ []) ≡ err "it climbs out of the folder"
unfolding resolve trim_start trim_end split named first_refusal
climbs = refl

drive :
    resolve (b'c' ∷ b':' ∷ b'x' ∷ [])
    ≡ err "it names a drive, and paths are relative to the top of the folder"
unfolding resolve trim_start trim_end
drive = refl

trailing_dot :
    resolve (b'a' ∷ b'.' ∷ b'/' ∷ b'b' ∷ []) ≡ err "a name in it ends in a dot or a space"
unfolding resolve trim_start trim_end split named first_refusal
trailing_dot = refl

resolve-IsPlain_example : (length names ≤ max_depth) × All IsPlain names
resolve-IsPlain_example = resolve-IsPlain given names takes

abbrev ascii_lower : ℕ → ℕ
ascii_lower c = if leb b'A' c && leb c b'Z' then c + 32 else c

abbrev lower : Text → Text
lower t = map ascii_lower t

git_folder : guarded lower (chars ".Git" ∷ chars "config" ∷ []) ≡ some (chars ".Git is never read")
unfolding guarded
git_folder = refl

abbrev env_names : List Text
env_names = chars "src" ∷ chars ".env.local" ∷ []

env_file :
    guarded lower env_names ≡ some (chars ".env.local usually holds secrets, so it is never read")
unfolding guarded
env_file = refl

env_example : guarded lower (chars ".env.example" ∷ []) ≡ none
unfolding guarded
env_example = refl
