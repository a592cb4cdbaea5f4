-- ===== src/Server/Registry/Tests.antt =====
-- Runs of the registry, and the properties at concrete inputs. Times, connections and principals
-- are numbers here.
use haystak_tds_spi.Base.{ℕ, ◌<◌, ◌≡◌, refl, subst, none, some, List, [], ◌∷◌, arith, codes}
use haystak_tds_spi.Base.Dict.{nat_eq, lookup, insert}
use haystak_tds_spi.Server.Registry.{
  SessionInfo, new_registry, add, attach, snapshot, own_session, Op, adds, attaches, removes, run,
  apply,
}
use haystak_tds_spi.Server.Registry.Ids.{IsConsistent, run-IsConsistent, add_fresh}
use haystak_tds_spi.Server.Registry.Views.{Row, here, there, Shows, own_row, own_session-Shows}

abbrev session : ℕ → SessionInfo ℕ
session k = record {
  session_id = k;
  login_name = codes "sa";
  host = codes "h";
  program = codes "p";
  login_time = 0;
}

abbrev logins : List (Op ℕ ℕ ℕ)
logins =
    adds (codes "sa") (codes "h") (codes "p") 0
    ∷ attaches (session 51) 7 1
    ∷ adds (codes "sa") (codes "h") (codes "p") 0
    ∷ []

run-logins : snapshot (run logins new_registry) ≡ session 51 ∷ session 52 ∷ []
unfolding snapshot run apply add attach lookup insert
run-logins = refl

run-IsConsistent_example : IsConsistent (run logins new_registry)
run-IsConsistent_example = run-IsConsistent logins

add_fresh_example :
    (lookup
        (add (codes "x") [] [] 5 (run logins new_registry)).0.session_id
        (run logins new_registry).sessions
      ≡ none)
    × ((add (codes "x") [] [] 5 (run logins new_registry)).0.session_id
        < (add (codes "y") [] [] 6 (
            run
              (removes 53 ∷ [])
              (add (codes "x") [] [] 5 (run logins new_registry)).1)).0.session_id)
add_fresh_example = add_fresh logins (removes 53 ∷ []) (codes "x") [] [] (codes "y") [] [] 5 6

abbrev one_login : List (Op ℕ ℕ ℕ)
one_login = adds (codes "sa") (codes "h") (codes "p") 0 ∷ []

one_login-Shows :
    Shows (run {Conn = ℕ} {Principal = ℕ} one_login new_registry).sessions (session 51 ∷ [])
unfolding run apply add lookup insert
one_login-Shows = record { sound = λ s r. row s r; complete = λ k s h. found k s h }
  where
    row :
        (s : SessionInfo ℕ)
        → Row s (session 51 ∷ [])
        → lookup s.session_id ((51, session 51) ∷ []) ≡ some s
    row s here = refl
    row s (there r) = elim r [ ]

    found :
        (k : ℕ) (s : SessionInfo ℕ)
        → lookup k ((51, session 51) ∷ []) ≡ some s
        → Row s (session 51 ∷ [])
    found k s h =
        subst (λ t. Row t (session 51 ∷ [])) (let same : session 51 ≡ s = ground arith in same) here

own_session-Shows_example :
    own_session (session 51) (session 51 ∷ [])
    ≡ own_row (lookup 51 (run {Conn = ℕ} {Principal = ℕ} one_login new_registry).sessions)
own_session-Shows_example =
    own_session-Shows (session 51) one_login (session 51 ∷ []) one_login-Shows
