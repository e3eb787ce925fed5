-- ===== src/Mysql/Buffer.antt =====
-- The buffer that a query is written to, and errors against progress.
use esskyuehl.Prelude.{
  ℕ, ◌+◌, ◌≤◌, ◌<◌, ◌≡◌, ◌≢◌, ◌↔◌, refl, List, none, some, arith, Bytes, u32_mod,
}
use esskyuehl.Escape.Format.{Arg, Printer}
use esskyuehl.State.{fails}
use esskyuehl.Mysql.{
  Errno, no_error, want_read, want_write, other_error, switch_ret, error_get, Mysac, len_of, grow,
  escape,
}

-- The size that `mysac_new(4096)` gives, or more, of 32 bits.
abbrev pub SizeOk : Mysac → Type 0
SizeOk m = (4096 ≤ m.bufsize) × (m.bufsize < u32_mod)

grow-SizeOk :
    (len : ℕ) (m : Mysac)
    → SizeOk m
    → len < 2147483648
    → SizeOk (grow len m) × (m.bufsize ≤ (grow len m).bufsize) × (len + 5 ≤ (grow len m).bufsize)
unfolding grow
grow-SizeOk len m h b = ground arith

-- A query of less than 2^31 bytes that `esql_mysac_escape` gives has room in the buffer, with the
-- five bytes that mysac puts in front of it; the buffer never shrinks, and stays of a size that
-- fits 32 bits.
pub escape-SizeOk :
    (pr : Printer) (fmt : Bytes) (args : List Arg) (m : Mysac)
    → SizeOk m
    → len_of (escape pr fmt args m).1 < 2147483648
    → SizeOk (escape pr fmt args m).0
      × (m.bufsize ≤ (escape pr fmt args m).0.bufsize)
      × (len_of (escape pr fmt args m).1 + 5 ≤ (escape pr fmt args m).0.bufsize)
unfolding escape
escape-SizeOk pr fmt args m h b = grow-SizeOk (len_of (escape pr fmt args m).1) m h b

-- The backend has an error exactly where a call of mysac with that code is taken for a failure.
pub error_get_iff : (n : Errno) (s : Bytes) → (error_get n (some s) ≢ none) ↔ (switch_ret n ≡ fails)
unfolding error_get switch_ret
error_get_iff no_error s = ((λ h. absurd (h refl)), (λ e. cc))
error_get_iff want_read s = ((λ h. absurd (h refl)), (λ e. cc))
error_get_iff want_write s = ((λ h. absurd (h refl)), (λ e. cc))
error_get_iff (other_error n) s = ((λ h. refl), (λ e p. cc))
