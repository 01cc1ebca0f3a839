-- ===== src/Driver/Choice/Registered.antt =====
-- pkg/driver/driver.go: Register keeps the ids of an interface distinct.
use workspaced.Prelude.{
  arith, ◌≡◌, ◌≢◌, subst, false, ◌||◌, Option, none, some, List, [], ◌∷◌, ◌++◌, Str, str_eq,
  str_eq_iff, All-append, Bool-cases, inl, inr,
}
use workspaced.Prelude.GoMap
use workspaced.Driver.{Factory, Registry, is_registered, factories, register}
use workspaced.Driver.Choice.{AreDistinct}
use workspaced.Driver.Choice.Get.{drivers_of}

append-AreDistinct :
    (fs : List Factory) (f : Factory)
    → is_registered f.id fs ≡ false
    → AreDistinct fs
    → AreDistinct (fs ++ f ∷ [])
unfolding is_registered
append-AreDistinct [] f e d = (tt, tt)
append-AreDistinct (g ∷ fs) f e (apart, d) = (
  All-append (λ h. g.id ≢ h.id) fs (f ∷ []) apart
      ((λ same. ground (arith, e, str_eq_iff g.id f.id, same)), tt),
  append-AreDistinct fs f (ground (arith, e)) d,
)

abbrev OnSome : {A : Type 0} → (A → Type 0) → Option A → Type 0
OnSome P none = Unit
OnSome P (some a) = P a

abbrev AllDistinct : Registry → Type 0
AllDistinct r = (i : Str) → AreDistinct (drivers_of i r)

put-AreDistinct :
    (iface : Str) (f : Factory) (r : Registry)
    → AllDistinct r
    → is_registered f.id (drivers_of iface r) ≡ false
    → (i : Str)
    → AreDistinct
        (factories (GoMap.get (GoMap.put r.drivers iface (drivers_of iface r ++ f ∷ [])) i))
put-AreDistinct iface f r d new i =
    rw (GoMap.get-put r.drivers iface (drivers_of iface r ++ f ∷ []) i)
      (elim (Bool-cases (str_eq iface i)) [
        | inl e ↦ rw (e) (append-AreDistinct (drivers_of iface r) f new (d iface))
        | inr e ↦ rw (e) (d i)
      ])

register-OnSome :
    (iface : Str) (f : Factory) (r : Registry)
    → AllDistinct r
    → OnSome AllDistinct (register iface f r)
unfolding register
register-OnSome iface f r d =
    elim (Bool-cases (str_eq f.id [] || is_registered f.id (drivers_of iface r))) [
      | inl b ↦ rw (b) tt
      | inr b ↦ rw (b) (put-AreDistinct iface f r d (ground (arith, b)))
    ]

-- A registration that does not panic keeps the ids of the drivers of each interface distinct.
pub register-AreDistinct :
    (iface : Str) (f : Factory) (r r' : Registry)
    → ((i : Str) → AreDistinct (drivers_of i r))
    → register iface f r ≡ some r'
    → (i : Str) → AreDistinct (drivers_of i r')
register-AreDistinct iface f r r' d e = subst (OnSome AllDistinct) e (register-OnSome iface f r d)
