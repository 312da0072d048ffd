-- ===== src/Identity/Tests.antt =====
-- Keys at concrete numbers.
use trawlarr.Prelude.{ℕ, ◌≡◌, refl, none, some, codes, Str}
use trawlarr.Identity.{
  PartialHashParts, IdentityLookup, build_identity_candidate, match_identity, inode,
}

abbrev plain : Str → Str
plain s = s

abbrev hash_of : ℕ → PartialHashParts
hash_of size = record { size_bytes = size; head_hex = codes "aa"; tail_hex = codes "bb" }

-- Every key belongs to the file 1.
abbrev table : IdentityLookup
table = record { by_inode_key = λ key. some (codes "1"); by_content_key = λ key. none }

matched :
    match_identity (build_identity_candidate plain (some 5) (some 77) (hash_of 9)) table
    ≡ some (codes "1", inode)
unfolding match_identity build_identity_candidate
matched = refl
