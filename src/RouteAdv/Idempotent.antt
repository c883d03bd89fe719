-- ===== src/RouteAdv/Idempotent.antt =====
-- Advertising a CUDN makes its advertisement be there, whether it was there or not, so that a
-- repeated reconciliation does no harm.
use mcn.Prelude.{
  refl, some, [], ◌∷◌, String, true, false, ◌≡◌, ◌≢◌, arith, sym, inl, inr, Bool-cases,
}
use mathlib.Core.Path.{subst}
use mcn.Kube.{Result, ok, err, Error, Value, str, is_not_found, is_already_exists, Result-cases}
use mcn.Paths.{path}
use mcn.Crd.{MultiClusterNetwork}
use mcn.RouteAdv.{Creator, advertisements, ra_name, route_advertisement, create_for_cudn}

module _ {W : Type 0} (c : Creator W) where
  -- What the API server documents of the calls, with `IsPresent name w` for an object of the name
  -- in the world `w`: Create adds the object under the name in its metadata.
  pub record IsServed (IsPresent : String → W → Type 0) : Type 0 where
    pub get_finds :
        (name : String) (w : W) (u : Value)
        → ((advertisements c).get name w).0 ≡ ok u
        → IsPresent name ((advertisements c).get name w).1
    pub create_adds :
        (v : Value) (name : String) (w : W) (u : Value)
        → path ("metadata" ∷ "name" ∷ []) v ≡ some (str name)
        → ((advertisements c).create v w).0 ≡ ok u
        → IsPresent name ((advertisements c).create v w).1
    pub create_meets :
        (v : Value) (name : String) (w : W) (e : Error)
        → path ("metadata" ∷ "name" ∷ []) v ≡ some (str name)
        → ((advertisements c).create v w).0 ≡ err e
        → is_already_exists e ≡ true
        → IsPresent name ((advertisements c).create v w).1

  -- The object carries the name that Get and Delete ask for.
  route_advertisement_name :
      (cudn : String) (mcn : MultiClusterNetwork)
      → path ("metadata" ∷ "name" ∷ []) (route_advertisement c cudn mcn)
        ≡ some (str (ra_name c cudn))
  unfolding route_advertisement
  route_advertisement_name cudn mcn = refl

  module _ (cudn : String) (w : W) where
    abbrev getting : Result Value × W
    getting = (advertisements c).get (ra_name c cudn) w

    abbrev creating : MultiClusterNetwork → Result Value × W
    creating mcn = (advertisements c).create (route_advertisement c cudn mcn) getting.1

    found :
        (mcn : MultiClusterNetwork) (u : Value)
        → getting.0 ≡ ok u
        → create_for_cudn c cudn mcn w ≡ (ok tt, getting.1)
    unfolding create_for_cudn
    found mcn u g = ground arith

    unknown :
        (mcn : MultiClusterNetwork) (e : Error)
        → getting.0 ≡ err e
        → is_not_found e ≡ false
        → (create_for_cudn c cudn mcn w).0 ≢ ok tt
    unfolding create_for_cudn
    unknown mcn e g n = ground arith

    made :
        (mcn : MultiClusterNetwork) (e : Error) (u : Value)
        → getting.0 ≡ err e
        → is_not_found e ≡ true
        → (creating mcn).0 ≡ ok u
        → create_for_cudn c cudn mcn w ≡ (ok tt, (creating mcn).1)
    unfolding create_for_cudn
    made mcn e u g n k = ground arith

    met :
        (mcn : MultiClusterNetwork) (e b : Error)
        → getting.0 ≡ err e
        → is_not_found e ≡ true
        → (creating mcn).0 ≡ err b
        → is_already_exists b ≡ true
        → create_for_cudn c cudn mcn w ≡ (ok tt, (creating mcn).1)
    unfolding create_for_cudn
    met mcn e b g n k a = ground arith

    unmade :
        (mcn : MultiClusterNetwork) (e b : Error)
        → getting.0 ≡ err e
        → is_not_found e ≡ true
        → (creating mcn).0 ≡ err b
        → is_already_exists b ≡ false
        → (create_for_cudn c cudn mcn w).0 ≢ ok tt
    unfolding create_for_cudn
    unmade mcn e b g n k a = ground arith

  module _ (IsPresent : String → W → Type 0) (s : IsServed IsPresent) (cudn : String) (w : W) where
    abbrev IsThere : Result (Unit {0}) × W → Type 0
    IsThere r = IsPresent (ra_name c cudn) r.1

    -- On a server that behaves as `IsServed` says, if CreateForCUDN succeeds, then the server has
    -- the CUDN's advertisement afterwards, also when it was there before or another client made it
    -- in between.
    pub create_for_cudn-present :
        (mcn : MultiClusterNetwork)
        → (create_for_cudn c cudn mcn w).0 ≡ ok tt
        → IsPresent (ra_name c cudn) (create_for_cudn c cudn mcn w).1
    create_for_cudn-present mcn h = elim (Result-cases (getting cudn w).0) [
      | inl (u, g) ↦ subst IsThere (sym (found cudn w mcn u g)) (s.get_finds _ w u g)
      | inr (e, g) ↦ elim (Bool-cases (is_not_found e)) [
        | inr n ↦ absurd (unknown cudn w mcn e g n h)
        | inl n ↦ elim (Result-cases (creating cudn w mcn).0) [
          | inl (u, k) ↦ subst IsThere (sym (made cudn w mcn e u g n k)) (
              s.create_adds (route_advertisement c cudn mcn) (ra_name c cudn) _ u
                (route_advertisement_name cudn mcn) k)
          | inr (b, k) ↦ elim (Bool-cases (is_already_exists b)) [
            | inl a ↦ subst IsThere (sym (met cudn w mcn e b g n k a)) (
                s.create_meets (route_advertisement c cudn mcn) (ra_name c cudn) _ b
                  (route_advertisement_name cudn mcn) k a)
            | inr a ↦ absurd (unmade cudn w mcn e b g n k a h)
          ]
        ]
      ]
    ]
