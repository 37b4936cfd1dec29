-- ===== src/Discovery.antt =====
-- src/infra/iface_discovery_netlink.rs: `is_can_like` and `list_can_ifaces`, over what the messages of rtnetlink
-- hold; and src/infra/iface_discovery_dummy.rs.
pub mod Listed
pub mod Sorted
pub mod Canonical
use Prim.Native.Char.{Char, code}
use Prim.Native.String
use can_bridge_daemon.Prelude.{
  ℕ, Bool, true, false, ◌&&◌, ◌||◌, String, Option, none, some, List, [], ◌∷◌, Result, ok, err,
  ◌>>=◌, str_eq, ltb, ◌==◌, if◌then◌else◌,
}

-- `str::starts_with`
unfoldable pub starts_with : String → String → Bool
starts_with s String.[] = true
starts_with String.[] (String.◌∷◌ d p) = false
starts_with (String.◌∷◌ c s) (String.◌∷◌ d p) = code c == code d && starts_with s p

unfoldable pub is_can_like : String → Bool
unfolding starts_with
is_can_like name = starts_with name "can" || starts_with name "vcan" || starts_with name "slcan"

-- `<` of `str`, which is that of the bytes, so of the scalar values
unfoldable pub str_lt : String → String → Bool
str_lt s String.[] = false
str_lt String.[] (String.◌∷◌ d t) = true
str_lt (String.◌∷◌ c s) (String.◌∷◌ d t) =
    let rest = str_lt s t in if code c == code d then rest else ltb (code c) (code d)

-- `sort` of a vector of texts: equal texts cannot be told apart, so its result is that of any sort.
unfoldable pub insert_sorted : String → List String → List String
unfolding str_lt
insert_sorted x [] = x ∷ []
insert_sorted x (y ∷ ys) =
    let rest = insert_sorted x ys in if str_lt y x then y ∷ rest else x ∷ y ∷ ys

unfoldable pub sort : List String → List String
unfolding insert_sorted
sort [] = []
sort (x ∷ xs) = insert_sorted x (sort xs)

-- `dedup`: of equal neighbours the first is kept.
unfoldable pub dedup_after : String → List String → List String
dedup_after x [] = []
dedup_after x (y ∷ ys) = let rest = dedup_after y ys in if str_eq x y then rest else y ∷ rest

unfoldable pub dedup : List String → List String
unfolding dedup_after
dedup [] = []
dedup (x ∷ xs) = x ∷ dedup_after x xs

-- The attributes of a link, of which the loop takes the first name.
pub data LinkAttribute : Type 0 where
  if_name : String → LinkAttribute
  other_attribute : LinkAttribute

unfoldable pub first_name : List LinkAttribute → Option String
first_name [] = none
first_name (if_name n ∷ attributes) = some n
first_name (other_attribute ∷ attributes) = first_name attributes

-- The names of the links that the stream gives, up to its end or its first error.
unfoldable pub link_names :
    List (Result String (List LinkAttribute)) → Result String (List (Option String))
unfolding first_name
link_names [] = ok []
link_names (err e ∷ links) = err "netlink get links"
link_names (ok attributes ∷ links) = do names ← link_names links; ok (first_name attributes ∷ names)

-- The loop over the links: each gives its first name, or `none` where it has no name.
unfoldable pub collect : List (Option String) → List String
unfolding is_can_like
collect [] = []
collect (none ∷ links) = collect links
collect (some ifname ∷ links) =
    let out = collect links in if is_can_like ifname then ifname ∷ out else out

-- The names that the discovery answers, where rtnetlink gives all the links.
unfoldable pub can_ifaces : List (Option String) → List String
unfolding collect sort dedup
can_ifaces links = dedup (sort (collect links))

-- `rtnetlink`: a connection, and the stream of the links over it, as the results that it gives. An error is the
-- text of its `Display`.
pub record NetlinkApi (W : Type 0) : Type 0 where
  pub get_links : W → Result String (List (Result String (List LinkAttribute))) × W

-- The names of a result of the links.
abbrev pub names_of : Result String (List (Option String)) → Result String (List String)
names_of (ok names) = ok (can_ifaces names)
names_of (err e) = err e

abbrev pub listed :
    {W : Type 0}
    → Result String (List (Result String (List LinkAttribute))) × W
    → Result String (List String) × W
listed (ok links, w) = (names_of (link_names links), w)
listed (err e, w) = (err "create rtnetlink connection", w)

-- The context hides the text of an error.
unfoldable pub list_can_ifaces : {W : Type 0} → NetlinkApi W → W → Result String (List String) × W
unfolding can_ifaces link_names
list_can_ifaces api w = listed (api.get_links w)

-- src/infra/iface_discovery_dummy.rs
unfoldable pub stub_list_can_ifaces : {W : Type 0} → W → Result String (List String) × W
stub_list_can_ifaces w = (ok ("vcan0" ∷ "can0" ∷ []), w)
