-- ===== src/Queries/Users/Members.antt =====
-- src/passwd.c: the two loops over the members of a group.
use uv_mbt.Base.{ℕ, ◌≡◌, ◌≢◌, refl, ap, ◌∙◌, Option, none, some, List, [], ◌∷◌, map, length}
use uv_mbt.Memory.{Ptr, null, State}
use uv_mbt.Memory.Ledger.{Ends}
use uv_mbt.Memory.Shapes.{decrefs-Ends}
use uv_mbt.Queries.Strings.{before_zero, copied-before_zero}
use uv_mbt.Queries.Users.{Group, count_members, copy_members, all_members, group_get_members}

-- an array of strings that NULL ends
abbrev pub ended_by_null : List (List ℕ) → List (Option (List ℕ)) → List (Option (List ℕ))
ended_by_null [] rest = none ∷ rest
ended_by_null (m ∷ ms) rest = some m ∷ ended_by_null ms rest

count_members-length :
    (ms : List (List ℕ)) (rest : List (Option (List ℕ)))
    → count_members (ended_by_null ms rest) ≡ some (length ms)
unfolding count_members
count_members-length [] rest = refl
count_members-length (m ∷ ms) rest = rw (count_members-length ms rest) refl

copy_members-map :
    (ms : List (List ℕ)) (rest : List (Option (List ℕ)))
    → copy_members (length ms) (ended_by_null ms rest) ≡ some (map before_zero ms)
unfolding copy_members
copy_members-map [] rest = refl
copy_members-map (m ∷ ms) rest = rw (copy_members-map ms rest, copied-before_zero m) refl

all_members-map :
    (ms : List (List ℕ)) (rest : List (Option (List ℕ)))
    → all_members (ended_by_null ms rest) ≡ some (map before_zero ms)
unfolding all_members
all_members-map ms rest = rw (count_members-length ms rest, all_members) (copy_members-map ms rest)

-- The members of a group, where NULL ends libuv's array: both loops end there and read nothing behind it, the result
-- has the bytes of each member up to its zero byte, in their order, and the parameter is released.
pub group_get_members-Ends :
    (g : Group) (ms : List (List ℕ)) (rest : List (Option (List ℕ))) (group : Ptr) (s : State)
    → g.members ≡ ended_by_null ms rest
    → group ≢ null
    → Ends
        (λ x t. (x ≡ map before_zero ms) × (t.cells ≡ s.cells))
        (group ∷ [])
        []
        s
        (group_get_members g group s)
unfolding group_get_members
group_get_members-Ends g ms rest group s e h =
    rw (ap all_members e ∙ all_members-map ms rest, group_get_members)
      (decrefs-Ends (group ∷ []) (map before_zero ms) s (h, tt) λ t k. (refl, k))
