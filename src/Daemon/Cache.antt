-- ===== src/Daemon/Cache.antt =====
-- The cache all_interfaces of src/intfd_ovsdb_if.c: which structures are allocated, and what freeing
-- and adding an interface does to it.
use ops_intfd.Prelude.{
  ℕ, suc, ◌<◌, ◌≡◌, refl, sym, ap, ◌∙◌, Bool, true, false, ◌&&◌, not, inl, inr, Option, none, some,
  [], ◌∷◌, ◌==◌, if◌then◌else◌, is_some, Option-cases, All, arith,
}
use ops_intfd.CString.{CString}
use ops_intfd.CString.Equality.{strcmp_iff}
use ops_intfd.Interface.{Iface}
use ops_intfd.Daemon.{Shash, shash_find, shash_add, shash_delete, World, update_heap}
use ops_intfd.Daemon.Frame.{is_live, IsFramed}
use ops_intfd.Daemon.Interfaces.{del_old_interface, del_interfaces}
use ops_intfd.Daemon.Maps.{
  has_address, IsDistinct, find-delete, add-IsDistinct, has_address-add, has_address-delete,
  delete-IsDistinct,
}

-- The names and the addresses of the cache differ, and the addresses that are allocated are those of
-- the cache: no entry dangles, and no interface has leaked.
abbrev pub IsWellFormed : World → Type 0
IsWellFormed w =
    IsDistinct w.all_interfaces
    × ((a : ℕ) → is_live w.heap a ≡ has_address w.all_interfaces a)
    × ((a : ℕ) → has_address w.all_interfaces a ≡ true → a < w.next)

pub IsFramed-IsWellFormed : (w w' : World) → IsFramed w w' → IsWellFormed w → IsWellFormed w'
IsFramed-IsWellFormed w w' (cache, next, live) (distinct, heap, below) = (
  rw cache distinct,
  λ a. live a ∙ heap a ∙ ap (λ c. has_address c a) (sym cache),
  λ a h. rw next (below a (ap (λ c. has_address c a) (sym cache) ∙ h)),
)

is_some-if :
    (c : Bool) (x y : Option Iface)
    → is_some (if c then x else y) ≡ (if c then is_some x else is_some y)
is_some-if true x y = refl
is_some-if false x y = refl

-- The memory with a new interface in the cache.
abbrev pub with_iface : CString → Iface → World → World
with_iface name intf w = record w {
  heap = update_heap w.heap w.next (some intf);
  next = suc w.next;
  all_interfaces = shash_add w.all_interfaces name w.next;
}

pub with_iface-IsWellFormed :
    (name : CString) (intf : Iface) (w : World)
    → shash_find w.all_interfaces name ≡ none
    → IsWellFormed w
    → IsWellFormed (with_iface name intf w)
with_iface-IsWellFormed name intf w h (distinct, heap, below) =
    let new : has_address w.all_interfaces w.next ≡ false = ground (arith, below w.next) in
    (
      add-IsDistinct w.all_interfaces name w.next h new distinct,
      λ a. ground (
        arith,
        is_some-if (w.next == a) (some intf) (w.heap a),
        heap a,
        has_address-add w.all_interfaces name w.next a,
      ),
      λ a e. ground (arith, below a, has_address-add w.all_interfaces name w.next a),
    )

del_old_interface-IsWellFormed :
    (name : CString) (a : ℕ) (w : World)
    → shash_find w.all_interfaces name ≡ some a
    → IsWellFormed w
    → IsWellFormed (del_old_interface name a w)
unfolding del_old_interface
del_old_interface-IsWellFormed name a w h (distinct, heap, below) = (
  delete-IsDistinct w.all_interfaces name distinct,
  λ b. ground (
    arith,
    is_some-if (a == b) none (w.heap b),
    heap b,
    has_address-delete w.all_interfaces name a b distinct h,
  ),
  λ b e. ground (arith, below b, has_address-delete w.all_interfaces name a b distinct h),
)

-- The entries are those of the map.
abbrev IsWithin : Shash ℕ → Shash ℕ → Type 0
IsWithin c = All (λ (e : CString × ℕ). shash_find c e.0 ≡ some e.1)

IsWithin-delete :
    (c xs : Shash ℕ) (name : CString)
    → shash_find xs name ≡ none
    → IsWithin c xs
    → IsWithin (shash_delete c name) xs
unfolding shash_find
IsWithin-delete c [] name h k = tt
IsWithin-delete c ((other, a) ∷ xs) name h (k, ks) = (
  ground (arith, find-delete c name other, strcmp_iff name other, strcmp_iff other name),
  IsWithin-delete c xs name (ground arith) ks,
)

IsWithin-cons :
    (c xs : Shash ℕ) (name : CString) (a : ℕ)
    → shash_find xs name ≡ none
    → IsWithin c xs
    → IsWithin ((name, a) ∷ c) xs
unfolding shash_find
IsWithin-cons c [] name a h k = tt
IsWithin-cons c ((other, b) ∷ xs) name a h (k, ks) = (
  ground (arith, strcmp_iff name other, strcmp_iff other name),
  IsWithin-cons c xs name a (ground arith) ks,
)

IsDistinct-IsWithin : (c : Shash ℕ) → IsDistinct c → IsWithin c c
unfolding shash_find
IsDistinct-IsWithin [] d = tt
IsDistinct-IsWithin ((name, a) ∷ c) (n, m, d) =
    (ground (arith, strcmp_iff name name), IsWithin-cons c c name a n (IsDistinct-IsWithin c d))

-- What del_interfaces leaves, by the entries that it has yet to visit.
abbrev IsPruned : Shash ℕ → Shash ℕ → World → World → Type 0
IsPruned present rest w w' =
    IsWellFormed w'
    × (w'.rows ≡ w.rows)
    × (w'.base_mtu ≡ w.base_mtu)
    × ((key : CString)
        → shash_find w'.all_interfaces key ≡ (
            if is_some (shash_find rest key) && not (is_some (shash_find present key))
            then none
            else shash_find w.all_interfaces key))

prune :
    (present rest : Shash ℕ) (w : World)
    → IsDistinct rest
    → IsWithin w.all_interfaces rest
    → IsWellFormed w
    → IsPruned present rest w (del_interfaces present rest w)
unfolding del_interfaces shash_find del_old_interface
prune present [] w d k ok = (ok, refl, refl, λ key. refl)
prune present ((name, a) ∷ rest) w (n, m, d) (k, ks) ok =
    elim (Option-cases (shash_find present name)) [
      | inl e ↦
          let (ok', rows, mtu, found) =
            prune present rest (del_old_interface name a w) d
              (IsWithin-delete w.all_interfaces rest name n ks)
              (del_old_interface-IsWellFormed name a w k ok) in
          rw (e, del_interfaces)
            (
              ok',
              rows,
              mtu,
              λ key.
                  ground
                    (arith, found key, find-delete w.all_interfaces name key, strcmp_iff name key),
            )
      | inr (r, e) ↦
          let (ok', rows, mtu, found) = prune present rest w d ks ok in
          rw (e, del_interfaces)
            (ok', rows, mtu, λ key. ground (arith, found key, strcmp_iff name key))
    ]

-- After the loop that frees them, the cache has the interfaces that it had and that are present.
pub del_interfaces-IsWellFormed :
    (present : Shash ℕ) (w : World)
    → IsWellFormed w
    → let w' = del_interfaces present w.all_interfaces w in
      IsWellFormed w'
      × (w'.rows ≡ w.rows)
      × (w'.base_mtu ≡ w.base_mtu)
      × ((key : CString)
          → shash_find w'.all_interfaces key
            ≡ (if is_some (shash_find present key) then shash_find w.all_interfaces key else none))
del_interfaces-IsWellFormed present w ok =
    let (ok', rows, mtu, found) =
      prune present w.all_interfaces w ok.0 (IsDistinct-IsWithin w.all_interfaces ok.0) ok in
    (ok', rows, mtu, λ key. ground (arith, found key))
