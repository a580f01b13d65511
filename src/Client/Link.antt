-- ===== src/Client/Link.antt =====
-- client/connect.go and client/client.go: the status of a client, its connection, and the goroutines
-- that read from it, counted by where they stand.
-- `reading` goroutines are in their loop on the connection that was dialed last, `stale` ones on an
-- earlier one; `leaving` ones have met the end of the connection and have
-- not yet run the deferred function that sets the status once more. `storing` is 1 while `connect`,
-- under connectLock, has dialed and started a reader and has not yet set the status. `live` says
-- whether the last dialed connection still works.
use webwire_go.Base.{if◌then◌else◌, ◌==◌, ℕ, ◌+◌, ◌-◌, ◌<◌, ◌≡◌, Bool, true, false}

-- The constants; `Disconnected` repeats the value of the constant before it.
abbrev pub disabled : ℕ
disabled = 0

abbrev pub disconnected : ℕ
disconnected = disabled

abbrev pub connected : ℕ
connected = 2

pub record Link : Type 0 where
  pub status : ℕ
  pub live : Bool
  pub reading : ℕ
  pub stale : ℕ
  pub leaving : ℕ
  pub storing : ℕ

abbrev pub new_link : Link
new_link = record {
  status = disconnected;
  live = false;
  reading = 0;
  stale = 0;
  leaving = 0;
  storing = 0;
}

-- What `connect` does until it has started a reader, where the dialing succeeds.
unfoldable pub connect_dials : Link → Link
connect_dials s =
    if s.status == connected
    then s
    else record s { live = true; reading = 1; stale = s.stale + s.reading; storing = s.storing + 1 }

-- The reader meets an error of `Read`: it sets the status, calls the hook and starts a reconnection.
unfoldable pub reader_fails : Link → Link
reader_fails s = record s {
  status = disconnected;
  live = false;
  reading = s.reading - 1;
  leaving = s.leaving + 1;
}

-- So does a reader of an earlier connection, which `Dial` has closed.
unfoldable pub stale_reader_fails : Link → Link
stale_reader_fails s = record s {
  status = disconnected;
  stale = s.stale - 1;
  leaving = s.leaving + 1;
}

-- The deferred function of a reader.
unfoldable pub reader_leaves : Link → Link
reader_leaves s = record s { status = disconnected; leaving = s.leaving - 1 }

-- `Close` up to its wait for the reader.
unfoldable pub close_client : Link → Link
close_client s =
    if s.status == connected
    then record s { status = disabled; live = false }
    else record s { status = disabled }

pub data LinkStep : Link → Link → Type 0 where
  dials : (s : Link) → s.storing ≡ 0 → LinkStep s (connect_dials s)
  stores :
      (s : Link)
      → 0 < s.storing
      → LinkStep s (record s { status = connected; storing = s.storing - 1 })
  fails : (s : Link) → 0 < s.reading → LinkStep s (reader_fails s)
  fails_late : (s : Link) → 0 < s.stale → LinkStep s (stale_reader_fails s)
  -- a reader that was handling a message reads from the new connection next
  adopts :
      (s : Link)
      → 0 < s.stale
      → LinkStep s (record s { stale = s.stale - 1; reading = s.reading + 1 })
  leaves : (s : Link) → 0 < s.leaving → LinkStep s (reader_leaves s)
  closes : (s : Link) → LinkStep s (close_client s)

pub data Links (s : Link) : Link → Type 0 where
  here : Links s s
  next : {t u : Link} → Links s t → LinkStep t u → Links s u
