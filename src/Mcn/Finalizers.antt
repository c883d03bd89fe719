-- ===== src/Mcn/Finalizers.antt =====
-- The lists of finalizers: what adding and removing one does to the membership of each.
use mcn.Prelude.{
  String, true, false, List, [], ◌∷◌, ◌++◌, ◌≡◌, refl, str_eq, eq_iff, arith, if◌then◌else◌,
}
use mcn.Mcn.{contains_string, remove_string}

-- Removal takes off every occurrence of its argument and leaves each other text as it was.
pub contains_string-remove_string :
    (fs : List String) (s t : String)
    → contains_string (remove_string fs s) t ≡ (if str_eq s t then false else contains_string fs t)
unfolding contains_string remove_string
contains_string-remove_string [] s t = ground arith
contains_string-remove_string (f ∷ fs) s t =
    ground (arith, contains_string-remove_string fs s t, eq_iff f s, eq_iff f t, eq_iff s t)

-- An appended text is contained, and no other text's membership changes.
pub contains_string-append :
    (fs : List String) (s t : String)
    → contains_string (fs ++ s ∷ []) t ≡ (if str_eq s t then true else contains_string fs t)
unfolding contains_string
contains_string-append [] s t = ground arith
contains_string-append (f ∷ fs) s t = ground (arith, contains_string-append fs s t)

-- Nothing is removed from a list without the text.
remove_string-absent :
    (fs : List String) (s : String) → contains_string fs s ≡ false → remove_string fs s ≡ fs
unfolding contains_string remove_string
remove_string-absent [] s h = refl
remove_string-absent (f ∷ fs) s h = ground (arith, remove_string-absent fs s)

-- Removal of a finalizer that was appended gives the list back, where the list did not have it
-- before.
pub remove_string-append :
    (fs : List String) (s : String)
    → contains_string fs s ≡ false
    → remove_string (fs ++ s ∷ []) s ≡ fs
unfolding contains_string remove_string
remove_string-append [] s h = ground (arith, eq_iff s s)
remove_string-append (f ∷ fs) s h = ground (arith, remove_string-append fs s)
