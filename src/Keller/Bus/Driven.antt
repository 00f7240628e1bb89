-- ===== src/Keller/Bus/Driven.antt =====
-- The driver-enable line behind a transaction.
use asteria_firmware.Prelude.{
  ℕ, ◌≡◌, refl, Bool, true, false, List, [], ◌∷◌, Bool-cases, inl, inr, ltb, leb, length, ◌&&◌,
}
use asteria_firmware.Keller.Bus.{
  Modbus, Reply, silent, broken, arrived, TxFate, transmitted, write_fails, flush_fails,
  KellerSensRs485, final, complete, listen, transmit, transact, shorter,
}

abbrev pub left_high : TxFate → Bool
left_high transmitted = false
left_high write_fails = true
left_high flush_fails = true

complete-de :
    (m : Modbus) (bytes : List ℕ) (b : KellerSensRs485) → (final (complete m bytes b)).de ≡ b.de
unfolding complete
complete-de m bytes b = elim (Bool-cases (ltb 256 (length bytes))) [
  | inl long ↦ rw long refl
  | inr fits ↦
      elim (Bool-cases
        (leb 6 (length bytes) && shorter (length bytes) (m.guess_response_frame_len bytes))) [
          | inl cut ↦ rw (fits, cut) refl
          | inr whole ↦ rw (fits, whole) refl
        ]
]

listen-de :
    (m : Modbus) (events : List Reply) (b : KellerSensRs485) → (final (listen m events b)).de ≡ b.de
unfolding listen
listen-de m [] b = refl
listen-de m (silent ∷ rest) b = refl
listen-de m (broken ∷ rest) b = refl
listen-de m (arrived bytes ∷ rest) b = complete-de m bytes (record b { replies = rest })

transmit-de :
    (fate : TxFate) (m : Modbus) (req : List ℕ) (b : KellerSensRs485)
    → b.de ≡ true
    → (final (transmit fate m req b)).de ≡ left_high fate
unfolding transmit
transmit-de transmitted m req b h = listen-de m b.replies _
transmit-de write_fails m req b h = h
transmit-de flush_fails m req b h = h

-- Whatever the sensor answers, a transaction releases the bus, but for one: if the port fails to take
-- the request, the driver-enable line is left high.
pub transact-de :
    (m : Modbus) (req : List ℕ) (b : KellerSensRs485)
    → (final (transact m req b)).de ≡ left_high (b.tx b.calls)
unfolding transact
transact-de m req b = transmit-de (b.tx b.calls) m req _ refl
