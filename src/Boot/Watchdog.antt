-- ===== src/Boot/Watchdog.antt =====
-- src/boot/main.c: how the watchdog is stopped.
use miniboot.Common.{ℕ, ◌≡◌, refl, some, ◌∷◌, arith}
use miniboot.Bus.Poll.{Polled, Settles, poll-Settles}
use miniboot.Bus.{done, Device, Trace, wr, word, writes, find_write, last_written}
use miniboot.Boot.{watchdog_disable, is_pending, wdt_wspr, wdt_wwps}

-- The watchdog has been stopped by these accesses and no others: the first half of the sequence,
-- reads of the write-pending status until it was 0, the second half, and such reads again.
pub record Disabled (dev : Device) (h h' : Trace) : Type 0 where
  pub between : Trace
  pub first : Polled dev wdt_wwps is_pending (wr word wdt_wspr 0xaaaa ∷ h) 0 between
  pub second : Polled dev wdt_wwps is_pending (wr word wdt_wspr 0x5555 ∷ between) 0 h'

module _ (dev : Device) (fuel : ℕ) where
  -- The posted write of the start-stop register is taken within the turns of a loop.
  abbrev pub Posts : Type 0
  Posts =
      (h : Trace) (v : ℕ)
      → last_written wdt_wspr h ≡ some v
      → Settles dev wdt_wwps is_pending fuel h

  -- If the watchdog takes each write in time, `watchdog_disable` returns. What it has done is
  -- exactly this: it has written 0xAAAA to the start-stop register, has then read the write-pending
  -- status until this was 0, has then written 0x5555, and has read the status until it was 0 again.
  pub watchdog_disable-Disabled :
      Posts
      → (h : Trace) → (h' : Trace) × (watchdog_disable dev fuel h ≡ done tt h') × Disabled dev h h'
  unfolding watchdog_disable last_written writes find_write
  watchdog_disable-Disabled posts h =
      let h1 : Trace = wr word wdt_wspr 0xaaaa ∷ h in
      let (s1, h2, e1, p1) = poll-Settles dev wdt_wwps is_pending (posts h1 0xaaaa refl) in
      let h3 : Trace = wr word wdt_wspr 0x5555 ∷ h2 in
      let (s2, h4, e2, p2) = poll-Settles dev wdt_wwps is_pending (posts h3 0x5555 refl) in
      let z1 : s1 ≡ 0 = ground (arith, p1.ready) in
      let z2 : s2 ≡ 0 = ground (arith, p2.ready) in
      (h4, rw (e1, e2) refl, record { between = h2; first = rw z1 at p1; second = rw z2 at p2 })
