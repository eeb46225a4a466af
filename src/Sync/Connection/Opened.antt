-- ===== src/Sync/Connection/Opened.antt =====
-- What `create` gives: the first address that opens, a reader that has read nothing, and a clear flag.
use mathlib.Core.Path.{subst}
use mcutt.Common.{
  ℕ, ◌+◌, ◌<◌, ◌≡◌, refl, sym, ap, ◌∙◌, List, [], ◌∷◌, ◌++◌, All, Option, none, some, Bool-cases,
  false, inl, inr, ltb, length-replicate, arith,
}
use mcutt.Bytes.{IoErrorKind, Result, ok, err, error, invalid, ok_or, usize_mod}
use mcutt.Bytes.Try.{◌>>=◌, bind-ok, ok_or-eq-ok, map_err}
use mcutt.External.Mio.{Poll, Timer, Net}
use mcutt.Sync.Read.{Read}
use mcutt.Sync.Reader
use mcutt.Sync.Reader.{Reader}
use mcutt.Sync.Reader.Window.{IsSound}
use mcutt.Sync.Reader.Stream.{stream}
use mcutt.Sync.Reader.Sound.{with_capacity-IsSound, fresh}
use mcutt.Sync.Reader.Capacity.{capacity}
use mcutt.Sync.Connection.{ReaderHalf, Connection}
use mcutt.Sync.Connection.Create.{
  create, open_socket, first_open, or_first, connection, with_sockets, connect_socket,
  create_timer_fd, create_reader_half, register, opening_error,
}
use mcutt.Sync.Connection.Open.{IsOpen}

map_err-ok :
    {A : Type 0} {D E : Type 0} (g : D → E) (r : Result A D) (a : A) → map_err g r ≡ ok a → r ≡ ok a
map_err-ok g (ok x) a h = cc h
map_err-ok g (err e) a h = cc h

module _ {P F S : Type 0} ⦃polls : Poll P S F⦄ where
  register-inner :
      (half done : ReaderHalf P F S) → register half ≡ ok done → done.inner ≡ half.inner
  unfolding register
  register-inner half done h =
      let (p, e, first) = bind-ok (λ (p : P). ok (record half { poll = p })) _ h in
      let same : record half { poll = p } ≡ done = cc e in
      ap (λ (r : ReaderHalf P F S). r.inner) (sym same)

module _ {S : Type 0} ⦃reads : Read S⦄ where
  -- A reader that has given nothing out yet, of everything that this socket gives.
  pub record IsFresh (socket : S) (size : ℕ) (this : Reader S) : Type 0 where
    pub sound : IsSound this
    pub given : stream this ≡ reads.pending socket
    pub room : capacity this ≡ size
    pub frame : this.frame ≡ none

  with_capacity-fresh :
      (socket : S) (n : ℕ) (this : Reader S)
      → Reader.with_capacity socket n ≡ some this
      → fresh socket n ≡ this
  unfolding Reader.with_capacity
  with_capacity-fresh socket n this h = elim (Bool-cases (ltb n 5)) [
    | inl less ↦ absurd (cc (h, less))
    | inr room ↦ cc (h, room)
  ]

  with_capacity-IsFresh :
      (socket : S) (n : ℕ) (this : Reader S)
      → n + 5 < usize_mod
      → Reader.with_capacity socket n ≡ some this
      → IsFresh socket n this
  with_capacity-IsFresh socket n this small h =
      let (sound, given) = with_capacity-IsSound socket n this small h in
      let e = with_capacity-fresh socket n this h in
      record {
        sound = sound;
        given = given;
        room = ap capacity (sym e) ∙ length-replicate n 0;
        frame = ap (λ (r : Reader S). r.frame) (sym e);
      }

module _ {P F S : Type 0} ⦃polls : Poll P S F⦄ ⦃timer : Timer F⦄ ⦃reads : Read S⦄ where
  create_reader_half-IsFresh :
      (socket : S) (timeout : ℕ) (half : ReaderHalf P F S)
      → create_reader_half socket timeout ≡ ok half
      → IsFresh socket 8192 half.inner
  unfolding create_reader_half
  create_reader_half-IsFresh socket timeout half h =
      let room : 8192 + 5 < usize_mod = omega arith in
      let (inner, h', made) =
        bind-ok _
          (ok_or (error invalid "size is greater than 8K") (Reader.with_capacity socket 8192)) h in
      let (fd, h'', timed) = bind-ok _ (create_timer_fd timeout) h' in
      let (p, h3, polled) =
        bind-ok (λ (p : P). ok (record { poll = p; timer_fd = fd; inner = inner })) _ h'' in
      let same : record { poll = p; timer_fd = fd; inner = inner } ≡ half = cc h3 in
      subst (λ (r : ReaderHalf P F S). IsFresh socket 8192 r.inner) same
        (with_capacity-IsFresh socket 8192 inner room (ok_or-eq-ok _ _ made))

module _ {P F S : Type 0} ⦃polls : Poll P S F⦄ ⦃timer : Timer F⦄ ⦃reads : Read S⦄ where
  with_sockets-IsFresh :
      (timeout : ℕ) (pair : S × S) (c : Connection P F S)
      → with_sockets timeout pair ≡ ok c
      → (c.writer.inner ≡ pair.0)
        × IsFresh pair.1 8192 c.reader.inner
        × (c.writer.sent_flag ≡ false)
  unfolding with_sockets
  with_sockets-IsFresh timeout (w, socket) c h =
      let (half, h3, made) = bind-ok _ (create_reader_half socket timeout) h in
      let (done, h4, reg) =
        bind-ok (λ (r : ReaderHalf P F S). ok (connection w r)) (register half) h3 in
      let same : connection w done ≡ c = cc h4 in
      subst
        (λ (c : Connection P F S).
          (c.writer.inner ≡ w) × IsFresh socket 8192 c.reader.inner × (c.writer.sent_flag ≡ false))
        same
        (
          refl,
          subst (IsFresh socket 8192) (sym (register-inner half done reg))
              (create_reader_half-IsFresh socket timeout half made),
          refl,
        )

module _ {A S : Type 0} ⦃net : Net A S⦄ where
  -- The addresses in front fail, and the next one opens as this pair.
  abbrev pub FirstOpen : ℕ → List A → S × S → Type 0
  FirstOpen timeout addrs pair =
      (before : List A) × (addr : A) × (after : List A) × (addrs ≡ before ++ (addr ∷ after))
      × All (λ a. (e : IoErrorKind) × (open_socket {S = S} timeout a ≡ err e)) before
      × (open_socket timeout addr ≡ ok pair)

  tried-FirstOpen :
      (timeout : ℕ) (addr : A) (addrs : List A) (pair : S × S) (r : Result (S × S) IoErrorKind)
      → open_socket timeout addr ≡ r
      → ((first_open timeout addrs ≡ some pair) → FirstOpen timeout addrs pair)
      → or_first r (first_open timeout addrs) ≡ some pair
      → FirstOpen timeout (addr ∷ addrs) pair
  tried-FirstOpen timeout addr addrs pair (ok got) e f h =
      ([], addr, addrs, refl, tt, e ∙ ap ok (cc h))
  tried-FirstOpen timeout addr addrs pair (err x) e f h =
      let (before, a, after, parts, failed, opens) = f h in
      (addr ∷ before, a, after, ap (λ l. addr ∷ l) parts, ((x, e), failed), opens)

  -- When a socket is found it is that of the first address that opens, and every address in front of
  -- it has failed.
  pub first_open-FirstOpen :
      (timeout : ℕ) (addrs : List A) (pair : S × S)
      → first_open timeout addrs ≡ some pair
      → FirstOpen timeout addrs pair
  unfolding first_open
  first_open-FirstOpen timeout [] pair h = cc h
  first_open-FirstOpen timeout (addr ∷ addrs) pair h =
      tried-FirstOpen timeout addr addrs pair (open_socket timeout addr) refl
        (first_open-FirstOpen timeout addrs pair) h

module _ {A P F S : Type 0} ⦃net : Net A S⦄ ⦃polls : Poll P S F⦄ ⦃timer : Timer F⦄
    ⦃reads : Read S⦄ where
  abbrev pub Opens : List A → ℕ → Connection P F S → Type 0
  Opens list timeout c =
      (socket : S) × FirstOpen timeout list (c.writer.inner, socket)
      × IsFresh socket 8192 c.reader.inner
      × (c.writer.sent_flag ≡ false)

  -- A connection that `create` gives has the socket of the first address that opens, where every
  -- address in front of it has failed; a clear flag; and a sound reader with a buffer of 8 KiB that
  -- has given out nothing of what the socket gives.
  pub create-Opens :
      (list : List A) (timeout : ℕ) (c : Connection P F S)
      → create (ok list) timeout ≡ ok c
      → Opens list timeout c
  unfolding create connect_socket
  create-Opens list timeout c h =
      let (opt, h', opened) =
        bind-ok
          (λ (o : Option (S × S)). ok_or (error invalid "socket addrs") o >>= with_sockets timeout)
          (map_err opening_error (connect_socket {S = S} (ok list) timeout)) h in
      let (pair, h'', found) =
        bind-ok (with_sockets timeout) (ok_or (error invalid "socket addrs") opt) h' in
      let some_pair = ok_or-eq-ok _ opt found in
      let first : first_open timeout list ≡ some pair =
        cc (map_err-ok opening_error (connect_socket (ok list) timeout) opt opened, some_pair) in
      let (writer, fresh, flag) = with_sockets-IsFresh timeout pair c h'' in
      (
        pair.1,
        subst (λ w. FirstOpen timeout list (w, pair.1)) (sym writer)
            (first_open-FirstOpen timeout list pair first),
        fresh,
        flag,
      )

  pub Opens-IsOpen :
      (list : List A) (timeout : ℕ) (c : Connection P F S) → Opens list timeout c → IsOpen c
  Opens-IsOpen list timeout c (socket, first, fresh, flag) = record {
    sound = fresh.sound;
    room = fresh.room;
  }
