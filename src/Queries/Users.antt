-- ===== src/Queries/Users.antt =====
-- src/passwd.c. A string of C is the list of its bytes, with the zero byte that ends it.
pub mod Members
use uv_mbt.Base.{
  ℕ, ℤ, pos, negsuc, ◌+◌, ◌%◌, ◌^◌, ◌*◌, ◌==◌, ltb, Bool, true, false, if◌then◌else◌, Option, none,
  some, List, [], ◌∷◌, zero, suc,
}
use uv_mbt.Memory.{Ptr, null, State, M, ◌>>=◌, ◌>>◌, pure, decref, make}
use uv_mbt.Queries.Shapes.{called, sized, value}
use uv_mbt.Queries.Strings.{copied, get_string}

unfoldable pub os_get_passwd : (uv_os_get_passwd : Ptr → M ℤ) → (passwd : Ptr) → M ℤ
unfolding called
os_get_passwd uv_os_get_passwd passwd = called (uv_os_get_passwd passwd) (passwd ∷ [])

unfoldable pub os_get_passwd2 :
    (uv_os_get_passwd2 : Ptr → ℤ → M ℤ) → (passwd : Ptr) → (uid : ℤ) → M ℤ
unfolding called
os_get_passwd2 uv_os_get_passwd2 passwd uid = called (uv_os_get_passwd2 passwd uid) (passwd ∷ [])

unfoldable pub os_get_group : (uv_os_get_group : Ptr → ℤ → M ℤ) → (group : Ptr) → (gid : ℤ) → M ℤ
unfolding called
os_get_group uv_os_get_group group gid = called (uv_os_get_group group gid) (group ∷ [])

-- `uv_passwd_t`
pub record Passwd : Type 0 where
  pub username : Option (List ℕ)
  pub uid : ℕ
  pub gid : ℕ
  pub shell : Option (List ℕ)
  pub homedir : Option (List ℕ)

unfoldable pub passwd_get_username : (p : Passwd) → (passwd : Ptr) → M (List ℕ)
unfolding get_string
passwd_get_username p passwd = get_string p.username passwd

unfoldable pub passwd_get_uid : (p : Passwd) → (passwd : Ptr) → M ℕ
unfolding value
passwd_get_uid p passwd = value p.uid passwd

unfoldable pub passwd_get_gid : (p : Passwd) → (passwd : Ptr) → M ℕ
unfolding value
passwd_get_gid p passwd = value p.gid passwd

unfoldable pub passwd_get_homedir : (p : Passwd) → (passwd : Ptr) → M (List ℕ)
unfolding get_string
passwd_get_homedir p passwd = get_string p.homedir passwd

-- the only string that is tested for NULL
unfoldable pub passwd_get_shell : (p : Passwd) → (passwd : Ptr) → M (List ℕ)
unfolding copied
passwd_get_shell p passwd = elim p.shell [
  | none ↦ (decref passwd >> pure [])
  | some c ↦ (decref passwd >> pure (copied c))
]

-- `uv_group_t`; `members` is the array as far as it is known, with NULL behind the last
pub record Group : Type 0 where
  pub groupname : Option (List ℕ)
  pub group_gid : ℕ
  pub members : List (Option (List ℕ))

unfoldable pub group_get_groupname : (g : Group) → (group : Ptr) → M (List ℕ)
unfolding get_string
group_get_groupname g group = get_string g.groupname group

unfoldable pub group_get_gid : (g : Group) → (group : Ptr) → M ℕ
unfolding value
group_get_gid g group = value g.group_gid group

-- the loop that counts; a fault where no NULL ends the array
unfoldable pub count_members : List (Option (List ℕ)) → Option ℕ
count_members [] = none
count_members (none ∷ ms) = some 0
count_members (some m ∷ ms) = elim (count_members ms) [ none ↦ none | some n ↦ some (suc n) ]

-- the loop that copies the first `count`
unfoldable pub copy_members : (count : ℕ) → List (Option (List ℕ)) → Option (List (List ℕ))
unfolding copied
copy_members zero ms = some []
copy_members (suc n) [] = none
copy_members (suc n) (none ∷ ms) = none
copy_members (suc n) (some m ∷ ms) = elim (copy_members n ms) [
  | none ↦ none
  | some cs ↦ some (copied m ∷ cs)
]

-- both loops
unfoldable pub all_members : List (Option (List ℕ)) → Option (List (List ℕ))
unfolding count_members copy_members
all_members ms = elim (count_members ms) [ none ↦ none | some count ↦ copy_members count ms ]

unfoldable pub group_get_members : (g : Group) → (group : Ptr) → M (List (List ℕ))
unfolding all_members
group_get_members g group s = elim (all_members g.members) [
  | none ↦ none
  | some members ↦ (decref group >> pure members) s
]
