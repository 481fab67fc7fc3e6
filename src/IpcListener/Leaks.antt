-- ===== src/IpcListener/Leaks.antt =====
-- daemon/src/ipc_listener.cpp: which descriptors are open when a call has ended.
use yonderboy.Prelude.{
  ℕ, ◌≤◌, Bool, true, false, Option, none, some, List, [], ◌∷◌, ◌≡◌, ◌≢◌, refl, sym, ap, subst, ◌∙◌,
  arith, Bytes, length, ltb, is_some, All,
}
use yonderboy.IpcListener.{
  Descriptors, SocketAnswers, without, opened, make_nonblocking, new_listener, connection,
  would_block, accept_failed, accept_client, bind_socket, returned,
}

-- The system gives out a descriptor that is not open.
abbrev pub IsNew : ℕ → Descriptors → Type 0
IsNew fd k = All (λ d. d ≢ fd) k.in_use

without-new : (fd : ℕ) (ds : List ℕ) → All (λ d. d ≢ fd) ds → without fd ds ≡ ds
without-new fd [] h = refl
without-new fd (d ∷ ds) h = ground (arith, without-new fd ds h.1)

without-opened : (fd : ℕ) (ds : List ℕ) → All (λ d. d ≢ fd) ds → without fd (fd ∷ ds) ≡ ds
without-opened fd ds h = ground (arith, without-new fd ds h)

-- A descriptor is returned, which is open beside the others and does not block, or the call throws and
-- the open descriptors are those of before.
pub data IsClean (fd : ℕ) (k : Descriptors) (good : Bool) (d : Descriptors) : Type 0 where
  kept :
      good ≡ true
      → d.in_use ≡ fd ∷ k.in_use
      → d.nonblocking ≡ fd ∷ k.nonblocking
      → IsClean fd k good d
  given_back : good ≡ false → d.in_use ≡ k.in_use → IsClean fd k good d

make_nonblocking-IsClean :
    (flags : Option Bool) (set : Bool) (fd : ℕ) (k : Descriptors)
    → IsNew fd k
    → IsClean fd k
        (make_nonblocking flags set fd (opened fd k)).0
        (make_nonblocking flags set fd (opened fd k)).1
unfolding make_nonblocking
make_nonblocking-IsClean none set fd k h = given_back refl (without-opened fd k.in_use h)
make_nonblocking-IsClean (some true) set fd k h = kept refl refl refl
make_nonblocking-IsClean (some false) true fd k h = kept refl refl refl
make_nonblocking-IsClean (some false) false fd k h = given_back refl (without-opened fd k.in_use h)

returned-IsClean :
    (fd : ℕ) (k : Descriptors) (r : Bool × Descriptors)
    → IsClean fd k r.0 r.1
    → IsClean fd k (is_some (returned fd r).0) (returned fd r).1
returned-IsClean fd k (true, d) h = h
returned-IsClean fd k (false, d) h = h

-- Whatever the system answers when a connection is accepted, where it gives out a descriptor that
-- is not open: the call throws and the open descriptors are those of before, or it returns a
-- descriptor, which is open beside them and does not block. With nothing to accept it throws, and
-- nothing changes.
pub accept_client-IsClean :
    (flags : Option Bool) (set : Bool) (fd : ℕ) (k : Descriptors)
    → IsNew fd k
    → IsClean fd k
        (is_some (accept_client (connection fd) flags set k).0)
        (accept_client (connection fd) flags set k).1
      × (accept_client would_block flags set k ≡ (none, k))
      × (accept_client accept_failed flags set k ≡ (none, k))
unfolding accept_client
accept_client-IsClean flags set fd k h = (
  returned-IsClean fd k (make_nonblocking flags set fd (opened fd k))
      (make_nonblocking-IsClean flags set fd k h),
  refl,
  refl,
)

bound-IsClean :
    (path : Bytes) (fd : ℕ) (k : Descriptors) (r : Bool × Descriptors)
    → IsClean fd k r.0 r.1
    → IsClean fd k (is_some (bind_socket true path fd r).0) (bind_socket true path fd r).1
bound-IsClean path fd k (true, d) h = h
bound-IsClean path fd k (false, d) h = h

new_lem :
    (answers : SocketAnswers) (path : Bytes) (fd : ℕ) (k : Descriptors)
    → answers.socket ≡ some fd
    → length path ≤ 107
    → new_listener answers path k
      ≡ bind_socket answers.binds path fd
          (make_nonblocking answers.flags answers.set_flags fd (opened fd k))
unfolding new_listener
new_lem answers path fd k e l =
    let short : ltb 107 (length path) ≡ false = ground arith in rw (new_listener, short, e) refl

unbound_lem :
    (n : Bool) (path : Bytes) (fd : ℕ) (k : Descriptors)
    → ((bind_socket false path fd (make_nonblocking (some n) true fd (opened fd k))).0 ≡ none)
      × ((bind_socket false path fd (make_nonblocking (some n) true fd (opened fd k))).1.in_use
          ≡ fd ∷ k.in_use)
unfolding make_nonblocking
unbound_lem true path fd k = (refl, refl)
unbound_lem false path fd k = (refl, refl)

-- A listener on a path that is short enough, for which the system gives out a descriptor that is
-- not open: where the socket can be bound, the constructor leaves the descriptor open and not
-- blocking, or throws and has closed it. Where its flags can be got and set but it cannot be
-- bound, the constructor throws and the descriptor stays open.
pub new_listener-IsClean :
    (answers : SocketAnswers) (path : Bytes) (fd : ℕ) (k : Descriptors)
    → IsNew fd k
    → answers.socket ≡ some fd
    → length path ≤ 107
    → (answers.binds ≡ true
        → IsClean fd k (is_some (new_listener answers path k).0) (new_listener answers path k).1)
      × ((n : Bool)
          → answers.binds ≡ false
          → answers.flags ≡ some n
          → answers.set_flags ≡ true
          → ((new_listener answers path k).0 ≡ none)
            × ((new_listener answers path k).1.in_use ≡ fd ∷ k.in_use))
new_listener-IsClean answers path fd k h e l =
    let made = new_lem answers path fd k e l in
    let r = make_nonblocking answers.flags answers.set_flags fd (opened fd k) in
    (
      λ b.
          subst (λ x. IsClean fd k (is_some x.0) x.1)
            (ap (λ c. bind_socket c path fd r) (sym b) ∙ sym made)
            (bound-IsClean path fd k r
              (make_nonblocking-IsClean answers.flags answers.set_flags fd k h)),
      λ n b f set.
          let same : new_listener answers path k
              ≡ bind_socket false path fd (make_nonblocking (some n) true fd (opened fd k)) =
            made
            ∙ ap (λ c. bind_socket c path fd r) b
            ∙ ap
                (λ g.
                  bind_socket false path fd (make_nonblocking g answers.set_flags fd (opened fd k)))
                f
            ∙ ap (λ g. bind_socket false path fd (make_nonblocking (some n) g fd (opened fd k)))
                set in
          let (nothing, left) = unbound_lem n path fd k in
          (ap (λ x. x.0) same ∙ nothing, ap (λ x. x.1.in_use) same ∙ left),
    )
