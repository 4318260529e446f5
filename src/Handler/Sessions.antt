-- ===== src/Handler/Sessions.antt =====
-- One user, one connection: sign-in against sign-up.
use fspserver.Base.{
  ℕ, suc, ◌+◌, ◌≤◌, Text, Bool, false, if◌then◌else◌, same, same_iff, same_self, List, [], ◌∷◌,
  some, ◌≡◌, ◌≢◌, inl, inr, refl, arith, lookup, count_values, UniqueKeys, count_values-modify,
  Bool-cases, Option-cases,
}
use fspserver.Protocol.{Protocol}
use fspserver.Hub.State.{Builder, Connection, Hub}
use fspserver.Users.{StatusCode, user_credentials_ok, registered_succes}
use fspserver.Hub.Notify.{log_in, is_logged, is_logged_in, logged_as}
use fspserver.Handler.Accounts.{signin_switch, do_signin, signup_switch, do_signup}

abbrev pub has_nickname : Text → Connection → Bool
has_nickname nick c = same c.client.nickname nick

-- How many connections a nickname has.
abbrev pub sessions : Text → Hub → ℕ
sessions nick h = count_values (has_nickname nick) h.connections

is_logged-sessions :
    (nick : Text) (m : List (ℕ × Connection))
    → is_logged_in nick m ≡ false
    → count_values (has_nickname nick) m ≡ 0
unfolding is_logged_in count_values
is_logged-sessions nick [] h = refl
is_logged-sessions nick ((a, c) ∷ m) h = ground (arith, is_logged-sessions nick m)

sessions-log_in :
    (nick login : Text) (address : ℕ) (c : Connection) (h : Hub)
    → UniqueKeys h.connections
    → lookup address h.connections ≡ some c
    → sessions nick (log_in address login h) + (if same c.client.nickname nick then 1 else 0)
      ≡ sessions nick h + (if same login nick then 1 else 0)
sessions-log_in nick login address c h u at =
    count_values-modify (has_nickname nick) address (logged_as login) c h.connections u at

signin_switch-sessions :
    (p : Protocol) (b : Builder) (status : StatusCode) (id login nick : Text) (address : ℕ)
    (c : Connection) (h : Hub)
    → UniqueKeys h.connections
    → lookup address h.connections ≡ some c
    → sessions nick h ≤ 1
    → sessions nick (signin_switch p b status id login address h) ≤ 1
unfolding signin_switch is_logged
signin_switch-sessions p b user_credentials_ok id login nick address c h u at few =
    elim (Bool-cases (is_logged login h)) [
      | inl e ↦ rw (e, signin_switch) few
      | inr e ↦
          rw (e, signin_switch)
            (ground (
              arith,
              sessions-log_in nick login address c h u at,
              is_logged-sessions login h.connections e,
              same_iff login nick,
              few,
            ))
    ]
signin_switch-sessions p b _ id login nick address c h u at few = few

-- Whatever the database answers, a sign-in gives no nickname a second connection.
pub do_signin-sessions :
    (p : Protocol) (b : Builder) (status : StatusCode) (id login nick : Text) (address : ℕ)
    (h : Hub)
    → UniqueKeys h.connections
    → sessions nick h ≤ 1
    → sessions nick (do_signin p b status id login address h) ≤ 1
unfolding do_signin
do_signin-sessions p b status id login nick address h u few =
    elim (Option-cases (lookup address h.connections)) [
      | inl e ↦ rw (e, do_signin) few
      | inr (c, e) ↦
          rw (e, do_signin) (signin_switch-sessions p b status id login nick address c h u e few)
    ]

-- A sign-up does not look at the connections. Where the database takes the name of a user who is still
-- connected, the name has one connection more.
pub do_signup-sessions :
    (p : Protocol) (b : Builder) (id login : Text) (address : ℕ) (c : Connection) (h : Hub)
    → UniqueKeys h.connections
    → lookup address h.connections ≡ some c
    → c.client.nickname ≢ login
    → sessions login (do_signup p b registered_succes id login address h) ≡ suc (sessions login h)
unfolding do_signup signup_switch
do_signup-sessions p b id login address c h u at other = ground (
  arith,
  sessions-log_in login login address c h u at,
  same_self login,
  same_iff c.client.nickname login,
  at,
)
