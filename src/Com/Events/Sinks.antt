-- ===== src/Com/Events/Sinks.antt =====
-- The sinks of `CMsgStore`, com/ComStore.cpp: Advise and Unadvise. A cookie is a DWORD.
pub mod Fresh
use msg_facade.Prelude.{
  ℕ, ◌+◌, ◌%◌, ◌^◌, ◌⊎◌, inl, inr, Bool, not, ◌||◌, Option, none, some, List, [], ◌∷◌, ltb, ◌==◌,
  if◌then◌else◌,
}
use msg_facade.HResult.{e_pointer}
use msg_facade.Com.{Answer, answered, raised}
use msg_facade.Com.Codes.{code}

abbrev pub connect_no_connection : ℕ
connect_no_connection = 0x80040200

abbrev pub connect_cannot_connect : ℕ
connect_cannot_connect = 0x80040202

abbrev pub unexpected : ℕ
unexpected = 0x8000FFFF

-- `m_sinks`, in the order of its keys, and `m_dwNextCookie`.
pub record Sinks : Type 0 where
  pub sinks : List (ℕ × ℕ)
  pub next_cookie : ℕ

unfoldable pub no_sinks : Sinks
no_sinks = record { sinks = []; next_cookie = 1 }

unfoldable pub find_sink : ℕ → List (ℕ × ℕ) → Option ℕ
find_sink cookie [] = none
find_sink cookie ((key, git) ∷ rest) = if key == cookie then some git else find_sink cookie rest

-- `m_sinks[cookie] = git;`
unfoldable pub set_sink : ℕ → ℕ → List (ℕ × ℕ) → List (ℕ × ℕ)
set_sink cookie git [] = (cookie, git) ∷ []
set_sink cookie git ((key, old) ∷ rest) =
    let later = set_sink cookie git rest in
    if key == cookie
    then (cookie, git) ∷ rest
    else if ltb cookie key
    then (cookie, git) ∷ (key, old) ∷ rest
    else (key, old) ∷ later

unfoldable pub erase_sink : ℕ → List (ℕ × ℕ) → List (ℕ × ℕ)
erase_sink cookie [] = []
erase_sink cookie ((key, git) ∷ rest) =
    let later = erase_sink cookie rest in if key == cookie then rest else (key, git) ∷ later

unfoldable pub register_sink : ℕ → Sinks → Answer ℕ × Sinks
register_sink git s = (
  answered s.next_cookie,
  record { sinks = set_sink s.next_cookie git s.sinks; next_cookie = (s.next_cookie + 1) % 2 ^ 32 },
)

-- What RegisterInterfaceInGlobal has answered: a failure, or the cookie of the table.
registered : ℕ ⊎ ℕ → Sinks → Answer ℕ × Sinks
registered (inl hr) s = (raised hr, s)
registered (inr git) s = register_sink git s

-- `sink`: whether it has IDispatch and whether it has the event interface, `none` for a NULL pointer.
-- `table`: what the table answers, if there is one.
unfoldable pub advise : Option (Bool × Bool) → Option (ℕ ⊎ ℕ) → Bool → Sinks → Answer ℕ × Sinks
unfolding registered
advise none table out s = (raised (code e_pointer), s)
advise (some (dispatch, events)) table out s =
    if not out
    then (raised (code e_pointer), s)
    else if not (dispatch || events)
    then (raised connect_cannot_connect, s)
    else elim table [ none ↦ (raised unexpected, s) | some answer ↦ registered answer s ]

-- The cookie of the table that is revoked is left out.
unfoldable pub unadvise : ℕ → Sinks → Answer (Unit {0}) × Sinks
unadvise cookie s = elim (find_sink cookie s.sinks) [
  | none ↦ (raised connect_no_connection, s)
  | some git ↦ (answered tt, record s { sinks = erase_sink cookie s.sinks })
]
