-- ===== src/Result/Freeing.antt =====
-- `_esql_res_free`: what the last `esql_res_unref` releases.
use esskyuehl.Prelude.{
  Bytes, append-nil, ℕ, zero, suc, ◌≡◌, refl, ap, ◌∙◌, Bool, true, false, List, [], ◌∷◌, ◌++◌,
  Option, none, some,
}
use esskyuehl.State.{Conn}
use esskyuehl.Result.{Result, unref}
use esskyuehl.Result.References.{unref_last, unref_more}

-- `res->e`: a connection, or a pool with its first member and the others.
pub data Owner : Type 0 where
  of_connection : Conn → Owner
  of_pool : Conn → List Conn → Owner

-- The connection whose backend releases its part of the result.
unfoldable pub asked : Owner → Conn
asked (of_connection c) = c
asked (of_pool c cs) = c

-- The connection that the result's owner is, or the first member of the pool that it is.
abbrev pub Asks : Owner → Conn → Type 0
Asks (of_connection d) c = d ≡ c
Asks (of_pool d ds) c = d ≡ c

asked-Asks : (o : Owner) (c : Conn) → Asks o c → asked o ≡ c
unfolding asked
asked-Asks (of_connection d) c p = p
asked-Asks (of_pool d ds) c p = p

-- What is released: a row with its cells, the column description, the backend's part by the
-- connection that is asked, the query's text, the memory pool, and the struct.
pub data Freed {ℓ} (V : Type ℓ) : Type ℓ where
  row : List V → Freed V
  desc query_text mempool struct : Freed V
  backend_res : Conn → Freed V

module _ {ℓ} {V : Type ℓ} where
  -- The loop over the rows.
  unfoldable pub row_free_each : List (List V) → List (Freed V)
  row_free_each [] = []
  row_free_each (r ∷ rs) = row r ∷ row_free_each rs

  abbrev pub desc_free : Option (List Bytes) → List (Freed V)
  desc_free none = []
  desc_free (some d) = desc ∷ []

  abbrev pub mempool_free : Bool → List (Freed V)
  mempool_free false = []
  mempool_free true = mempool ∷ []

  -- `_esql_res_free`; `has_mempool` tests `res->mempool`.
  unfoldable pub res_free : Owner → Bool → Result V → List (Freed V)
  unfolding row_free_each asked
  res_free o has_mempool r =
      row_free_each r.rows
      ++ (desc_free r.names
          ++ (backend_res (asked o) ∷ query_text ∷ (mempool_free has_mempool ++ struct ∷ [])))

  -- `esql_res_unref` with what was released until then.
  abbrev pub free_at_end :
      Owner
      → Bool
      → Result V
      → List (Freed V)
      → Option (Result V)
      → Option (Result V) × List (Freed V)
  free_at_end o has_mempool r h none = (none, h ++ res_free o has_mempool r)
  free_at_end o has_mempool r h (some s) = (some s, h)

  unfoldable pub unref_freeing :
      Owner → Bool → Result V → List (Freed V) → Option (Result V) × List (Freed V)
  unfolding unref res_free
  unref_freeing o has_mempool r h = free_at_end o has_mempool r h (unref r)

  abbrev next_unref :
      Owner → Bool → Option (Result V) × List (Freed V) → Option (Result V) × List (Freed V)
  next_unref o has_mempool (none, h) = (none, h)
  next_unref o has_mempool (some r, h) = unref_freeing o has_mempool r h

  -- `k` calls.
  abbrev pub unrefs_freeing :
      ℕ → Owner → Bool → Option (Result V) × List (Freed V) → Option (Result V) × List (Freed V)
  unrefs_freeing zero o has_mempool x = x
  unrefs_freeing (suc k) o has_mempool x =
      unrefs_freeing k o has_mempool (next_unref o has_mempool x)

  -- The rows that are released, in order.
  abbrev pub rows_of : List (Freed V) → List (List V)
  rows_of [] = []
  rows_of (row r ∷ fs) = r ∷ rows_of fs
  rows_of (_ ∷ fs) = rows_of fs

  -- The connections whose backends are asked.
  abbrev pub asked_of : List (Freed V) → List Conn
  asked_of [] = []
  asked_of (backend_res c ∷ fs) = c ∷ asked_of fs
  asked_of (_ ∷ fs) = asked_of fs

  rows_of-row_free_each :
      (rs : List (List V)) (fs : List (Freed V))
      → rows_of (row_free_each rs ++ fs) ≡ rs ++ rows_of fs
  unfolding row_free_each
  rows_of-row_free_each [] fs = refl
  rows_of-row_free_each (r ∷ rs) fs = ap (λ l. r ∷ l) (rows_of-row_free_each rs fs)

  asked_of-parts :
      (rs : List (List V)) (o : Owner) (has_mempool : Bool) (d : Option (List Bytes))
      → asked_of (
          row_free_each rs
          ++ (desc_free d
              ++ (backend_res (asked o) ∷ query_text ∷ (mempool_free has_mempool ++ struct ∷ []))))
        ≡ asked o ∷ []
  unfolding row_free_each
  asked_of-parts [] o true none = refl
  asked_of-parts [] o false none = refl
  asked_of-parts [] o true (some d) = refl
  asked_of-parts [] o false (some d) = refl
  asked_of-parts (r ∷ rs) o has_mempool d = asked_of-parts rs o has_mempool d

  asked_of-res_free :
      (o : Owner) (has_mempool : Bool) (r : Result V)
      → asked_of (res_free o has_mempool r) ≡ asked o ∷ []
  unfolding res_free
  asked_of-res_free o has_mempool r = asked_of-parts r.rows o has_mempool r.names

  tail_rows :
      (o : Owner) (has_mempool : Bool) (d : Option (List Bytes))
      → rows_of (
          desc_free d
          ++ (backend_res (asked o) ∷ query_text ∷ (mempool_free has_mempool ++ struct ∷ [])))
        ≡ []
  tail_rows o true none = refl
  tail_rows o false none = refl
  tail_rows o true (some d) = refl
  tail_rows o false (some d) = refl

  rows_of-res_free :
      (o : Owner) (has_mempool : Bool) (r : Result V) → rows_of (res_free o has_mempool r) ≡ r.rows
  unfolding res_free
  rows_of-res_free o has_mempool r =
      rows_of-row_free_each r.rows _
      ∙ ap (λ l. r.rows ++ l) (tail_rows o has_mempool r.names)
      ∙ append-nil r.rows

  unrefs_freeing-res_free :
      (k : ℕ) (o : Owner) (has_mempool : Bool) (r : Result V)
      → r.refcount ≡ suc k
      → (unrefs_freeing (suc k) o has_mempool (some r, []) ≡ (none, res_free o has_mempool r))
        × ((unrefs_freeing k o has_mempool (some r, [])).1 ≡ [])
  unfolding unref_freeing
  unrefs_freeing-res_free zero o has_mempool r e =
      (ap (free_at_end o has_mempool r []) (unref_last r e), refl)
  unrefs_freeing-res_free (suc k) o has_mempool r e =
      let (a, b) = unrefs_freeing-res_free k o has_mempool (record r { refcount = suc k }) refl in
      let first = ap (free_at_end o has_mempool r []) (unref_more r k e) in
      (
        ap (unrefs_freeing (suc k) o has_mempool) first
            ∙ a
            ∙ ap (λ (fs : List (Freed V)). (none, fs)) (unfold res_free in refl),
        ap (λ x. (unrefs_freeing k o has_mempool x).1) first ∙ b,
      )

  -- As many calls of `esql_res_unref` as a result has references release each of its rows once, in
  -- order, and all but the last of them release nothing. The backend's part is released once,
  -- by the connection that owns the result, or by the first member of the pool that does, whichever
  -- member made the query.
  pub unrefs_freeing-rows :
      (k : ℕ) (has_mempool : Bool) (o : Owner) (c : Conn) (r : Result V)
      → Asks o c
      → r.refcount ≡ suc k
      → let end = unrefs_freeing (suc k) o has_mempool (some r, []) in
        (end.0 ≡ none)
        × (rows_of end.1 ≡ r.rows)
        × (asked_of end.1 ≡ c ∷ [])
        × ((unrefs_freeing k o has_mempool (some r, [])).1 ≡ [])
  unrefs_freeing-rows k has_mempool o c r p e =
      let (a, b) = unrefs_freeing-res_free k o has_mempool r e in
      (
        ap (λ (x : Option (Result V) × List (Freed V)). x.0) a,
        ap (λ (x : Option (Result V) × List (Freed V)). rows_of x.1) a
            ∙ rows_of-res_free o has_mempool r,
        ap (λ (x : Option (Result V) × List (Freed V)). asked_of x.1) a
            ∙ asked_of-res_free o has_mempool r
            ∙ ap (λ d. d ∷ []) (asked-Asks o c p),
        b,
      )
