-- ===== src/Users/Outcomes.antt =====
-- What the methods of the users' database make of an executed command, and what the statements do to
-- the rows of the table.
use fspserver.Base.{
  ℕ, Text, true, false, not, ◌==◌, if◌then◌else◌, Option, none, some, [], ◌∷◌, ◌++◌, same, same_iff,
  keep_if, count_if, ◌≡◌, ◌⊎◌, inl, inr, refl, sym, arith, Bool-cases,
}
use fspserver.Users.{
  StatusCode, registered_succes, user_already_registered, user_removed, user_failed_to_remove,
  internal_error,
}
use fspserver.Users.Database.{
  Done, Rows, first, named, succeeded, row, retrieved, matched, present, looked_up, inserted,
  erased, Shows,
}
use fspserver.Users.Accounts.{checked}

pub first-append :
    (nick w : Text) (rows : Rows) (m : Text)
    → first nick rows ≡ none
    → first m (rows ++ ((nick, w) ∷ [])) ≡ (if same m nick then some w else first m rows)
unfolding first
first-append nick w [] m h = refl
first-append nick w ((k, v) ∷ rows) m h =
    ground (arith, first-append nick w rows m, same_iff nick k, same_iff m k, same_iff m nick)

pub first-keep_if :
    (nick : Text) (rows : Rows) (m : Text)
    → first m (keep_if (λ r. not (named nick r)) rows)
      ≡ (if same m nick then none else first m rows)
unfolding first keep_if
first-keep_if nick [] m = ground arith
first-keep_if nick ((k, v) ∷ rows) m =
    ground (arith, first-keep_if nick rows m, same_iff nick k, same_iff m k, same_iff m nick)

pub removed_none :
    (nick : Text) (rows : Rows) (m : Text)
    → first nick rows ≡ none
    → first m (keep_if (λ r. not (named nick r)) rows) ≡ first m rows
removed_none nick rows m h = elim (Bool-cases (same m nick)) [
  | inl e ↦ rw (first-keep_if nick rows m, e, (same_iff m nick).0 e) (sym h)
  | inr e ↦ rw (first-keep_if nick rows m, e) refl
]

pub count_if-none :
    (nick : Text) (rows : Rows) → first nick rows ≡ none → count_if (named nick) rows ≡ 0
unfolding first count_if
count_if-none nick [] h = refl
count_if-none nick ((k, v) ∷ rows) h = ground (arith, count_if-none nick rows)

pub count_if-some :
    (nick w : Text) (rows : Rows)
    → first nick rows ≡ some w
    → (count_if (named nick) rows == 0) ≡ false
unfolding first count_if
count_if-some nick w [] h = cc
count_if-some nick w ((k, v) ∷ rows) h = ground (arith, count_if-some nick w rows)

-- What a select shows, read by each method.
pub retrieved_lem :
    (password : Text) (o : Option Text) (r : Done)
    → Shows row o r
    → (retrieved password (some r) ≡ internal_error)
      ⊎ (retrieved password (some r) ≡ checked password o)
unfolding retrieved matched
retrieved_lem password none r (e, inl f) = grind (arith, e, f)
retrieved_lem password none r (e, inr f) = grind (arith, e, f)
retrieved_lem password (some w) r (e, inl f) = grind (arith, e, f)
retrieved_lem password (some w) r (e, inr f) = grind (arith, e, f)

pub retrieved_any :
    (password : Text) (o : Option Text) (x : Option Done)
    → ((r : Done) → x ≡ some r → r.is_executed ≡ true → Shows row o r)
    → (retrieved password x ≡ internal_error) ⊎ (retrieved password x ≡ checked password o)
unfolding retrieved matched
retrieved_any password o none shows = inl refl
retrieved_any password o (some r) shows = elim (Bool-cases r.is_executed) [
  | inl e ↦ retrieved_lem password o r (shows r refl e)
  | inr e ↦ inl (ground (arith, e))
]

abbrev pub Reads : Option Text → Option StatusCode → Type 0
Reads none found = (found ≡ some internal_error) ⊎ (found ≡ none)
Reads (some w) found = (found ≡ some internal_error) ⊎ (found ≡ some user_already_registered)

pub looked_up_lem :
    (nick : Text) (o : Option Text) (r : Done)
    → Shows (λ w. row nick) o r
    → Reads o (looked_up (some r))
unfolding looked_up present
looked_up_lem nick none r (e, inl f) = grind (arith, e, f)
looked_up_lem nick none r (e, inr f) = grind (arith, e, f)
looked_up_lem nick (some w) r (e, inl f) = grind (arith, e, f)
looked_up_lem nick (some w) r (e, inr f) = grind (arith, e, f)

pub looked_up_any :
    (nick : Text) (o : Option Text) (x : Option Done)
    → ((r : Done) → x ≡ some r → r.is_executed ≡ true → Shows (λ w. row nick) o r)
    → Reads o (looked_up x)
unfolding looked_up present
looked_up_any nick none none shows = inl refl
looked_up_any nick (some w) none shows = inl refl
looked_up_any nick o (some r) shows = elim (Bool-cases r.is_executed) [
  | inl e ↦ looked_up_lem nick o r (shows r refl e)
  | inr e ↦ refused o (ground (arith, e))
]
  where
    refused :
        (o : Option Text) → looked_up (some r) ≡ some internal_error → Reads o (looked_up (some r))
    refused none f = inl f
    refused (some w) f = inl f

pub inserted_any :
    (x : Option Done)
    → ((r : Done) → x ≡ some r → r.is_executed ≡ true → r.rows_affected ≡ 1)
    → inserted x ≡ (if succeeded x then registered_succes else internal_error)
unfolding inserted
inserted_any none one = refl
inserted_any (some r) one = ground (arith, one r refl)

pub erased_any :
    (n : ℕ) (x : Option Done)
    → ((r : Done) → x ≡ some r → r.is_executed ≡ true → r.rows_affected ≡ n)
    → erased x ≡ (
        if succeeded x
        then if n == 0 then user_failed_to_remove else user_removed
        else internal_error)
unfolding erased
erased_any n none all = refl
erased_any n (some r) all = ground (arith, all r refl)
