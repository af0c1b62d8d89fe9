-- ===== src/Create/Unshared.antt =====
-- What `configureUserNamespace` leaves of a list with one user namespace.
use lxcri.Base.{
  ℕ, zero, suc, ◌<◌, ◌≡◌, ◌≢◌, refl, sym, ◌∙◌, ap, true, false, List, [], ◌∷◌, ◌++◌, append_assoc,
  append-nil, any, All, length, arith,
}
use lxcri.Oci.{Namespace}
use lxcri.Create.Userns.{is_user, shift_up, drop_users, all_but_last, without_user}

abbrev AreOther : List Namespace → Type 0
AreOther nss = All (λ ns. is_user ns ≡ false) nss

drop_users_other :
    (k : ℕ) (passed rest : List Namespace)
    → AreOther rest
    → drop_users k passed rest ≡ passed ++ rest
unfolding drop_users
drop_users_other zero passed rest _ = refl
drop_users_other (suc k) passed [] _ = sym (append-nil passed)
drop_users_other (suc k) passed (n ∷ []) _ =
    drop_users_other k (passed ++ (n ∷ [])) [] tt ∙ append-nil (passed ++ (n ∷ []))
drop_users_other (suc k) passed (n ∷ (x ∷ rest)) (other, others) =
    rw (other, drop_users)
      (drop_users_other k (passed ++ (n ∷ [])) (x ∷ rest) others
        ∙ append_assoc passed (n ∷ []) (x ∷ rest))

shift_up-AreOther :
    (n : Namespace) (rest : List Namespace)
    → is_user n ≡ false
    → AreOther rest
    → AreOther (shift_up n rest)
unfolding shift_up
shift_up-AreOther n [] other _ = (other, tt)
shift_up-AreOther n (x ∷ rest) other (o, os) = (o, shift_up-AreOther x rest o os)

drop_users_one :
    (k : ℕ) (passed before : List Namespace) (u : Namespace) (after : List Namespace)
    → length before < k
    → AreOther before
    → is_user u ≡ true
    → AreOther after
    → drop_users k passed (before ++ (u ∷ after)) ≡ passed ++ (before ++ shift_up u after)
unfolding drop_users shift_up
drop_users_one zero passed before u after lt _ _ _ = elim lt [ ]
drop_users_one (suc k) passed [] u [] lt _ user _ =
    drop_users_other k (passed ++ (u ∷ [])) [] tt ∙ append-nil (passed ++ (u ∷ []))
drop_users_one (suc k) passed [] u (x ∷ rest) lt _ user (o, os) =
    rw (user, drop_users)
      (drop_users_other k (passed ++ (x ∷ [])) (shift_up x rest) (shift_up-AreOther x rest o os)
        ∙ append_assoc passed (x ∷ []) (shift_up x rest))
drop_users_one (suc k) passed (n ∷ []) u after lt (other, _) user os =
    rw (other, drop_users)
      (drop_users_one k (passed ++ (n ∷ [])) [] u after (omega (arith, lt)) tt user os
        ∙ append_assoc passed (n ∷ []) (shift_up u after))
drop_users_one (suc k) passed (n ∷ (m ∷ before)) u after lt (other, others) user os =
    rw (other, drop_users)
      (drop_users_one k (passed ++ (n ∷ [])) (m ∷ before) u after (omega (arith, lt)) others user os
        ∙ append_assoc passed (n ∷ []) ((m ∷ before) ++ shift_up u after))

shift_up-ne-nil : (n : Namespace) (rest : List Namespace) → shift_up n rest ≢ []
unfolding shift_up
shift_up-ne-nil n [] e = cc
shift_up-ne-nil n (x ∷ rest) e = cc

all_but_last-cons :
    (x : Namespace) (xs : List Namespace) → xs ≢ [] → all_but_last (x ∷ xs) ≡ x ∷ all_but_last xs
unfolding all_but_last
all_but_last-cons x [] some_left = absurd (some_left refl)
all_but_last-cons x (y ∷ ys) some_left = refl

all_but_last-shift_up :
    (n : Namespace) (rest : List Namespace) → all_but_last (shift_up n rest) ≡ rest
unfolding shift_up all_but_last
all_but_last-shift_up n [] = refl
all_but_last-shift_up n (x ∷ rest) =
    all_but_last-cons x (shift_up x rest) (shift_up-ne-nil x rest)
    ∙ ap (λ l. x ∷ l) (all_but_last-shift_up x rest)

append-ne-nil : (xs ys : List Namespace) → ys ≢ [] → (xs ++ ys) ≢ []
append-ne-nil [] ys some_left = some_left
append-ne-nil (x ∷ xs) ys some_left = λ e. cc

all_but_last-append :
    (xs ys : List Namespace) → ys ≢ [] → all_but_last (xs ++ ys) ≡ xs ++ all_but_last ys
all_but_last-append [] ys some_left = refl
all_but_last-append (x ∷ xs) ys some_left =
    all_but_last-cons x (xs ++ ys) (append-ne-nil xs ys some_left)
    ∙ ap (λ l. x ∷ l) (all_but_last-append xs ys some_left)

any-user :
    (before : List Namespace) (u : Namespace) (after : List Namespace)
    → is_user u ≡ true
    → any is_user (before ++ (u ∷ after)) ≡ true
any-user [] u after user = ground (arith, user)
any-user (n ∷ before) u after user = ground (arith, any-user before u after user)

length-one :
    (before : List Namespace) (u : Namespace) (after : List Namespace)
    → length before < length (before ++ (u ∷ after))
length-one [] u after = omega arith
length-one (n ∷ before) u after = omega (arith, length-one before u after)

-- Of a list with one user namespace, the loop that removes it from the list it ranges over leaves the
-- others, in order.
without_user_lem :
    (before : List Namespace) (u : Namespace) (after : List Namespace)
    → AreOther before
    → is_user u ≡ true
    → AreOther after
    → without_user (before ++ (u ∷ after)) ≡ before ++ after
unfolding without_user
without_user_lem before u after others user os =
    rw (any-user before u after user, without_user)
      (ap all_but_last (
          drop_users_one (length (before ++ (u ∷ after))) [] before u after
            (length-one before u after) others user os)
        ∙ all_but_last-append before (shift_up u after) (shift_up-ne-nil u after)
        ∙ ap (λ l. before ++ l) (all_but_last-shift_up u after))
