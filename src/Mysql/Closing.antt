-- ===== src/Mysql/Closing.antt =====
-- What a connection that was closed closes again.
use esskyuehl.Prelude.{ℕ, ◌≡◌, ◌∙◌, ap₂, [], ◌∷◌, Option, some, Bytes}
use esskyuehl.Mysql.{Mysac, cleared, disconnect, setup, free}

-- What the backend relies on of `mysac_setup`: it stores its arguments, and leaves the descriptor
-- alone.
pub record Stores
    (setup : Option Bytes → Option Bytes → Option Bytes → Option Bytes → Mysac → Mysac)
    : Type 0 where
  pub same_fd : (a l p d : Option Bytes) (m : Mysac) → (setup a l p d m).fd ≡ m.fd
  pub has_addr : (a l p d : Option Bytes) (m : Mysac) → (setup a l p d m).addr ≡ a
  pub has_login : (a l p d : Option Bytes) (m : Mysac) → (setup a l p d m).login ≡ l
  pub has_password : (a l p d : Option Bytes) (m : Mysac) → (setup a l p d m).password ≡ p

-- `esql_mysac_disconnect` keeps what is needed to connect again, but leaves 0 for the descriptor: a
-- second one, which `esql_mysac_free` makes, closes the descriptor 0 of the process.
pub disconnect-disconnect :
    (setup : Option Bytes → Option Bytes → Option Bytes → Option Bytes → Mysac → Mysac)
    (d d' : Option Bytes) (m : Mysac)
    → Stores setup
    → ((disconnect setup d' (disconnect setup d m).0).1 ≡ some 0)
      × ((disconnect setup d m).0.addr ≡ m.addr)
      × ((disconnect setup d m).0.login ≡ m.login)
      × ((disconnect setup d m).0.password ≡ m.password)
unfolding disconnect
disconnect-disconnect setup d d' m s = (
  s.same_fd m.addr m.login m.password d (cleared m),
  s.has_addr m.addr m.login m.password d (cleared m),
  s.has_login m.addr m.login m.password d (cleared m),
  s.has_password m.addr m.login m.password d (cleared m),
)

-- When an object that was set up is disconnected and then freed, each string that
-- `esql_mysac_setup` was given is released once, but `esql_mysac_free` closes the descriptor 0 of
-- the process.
pub free-setup :
    (mysac_setup : Option Bytes → Option Bytes → Option Bytes → Option Bytes → Mysac → Mysac)
    (d d' d'' : Option Bytes) (addr user : Bytes) (passwd : Option Bytes) (m : Mysac)
    → Stores mysac_setup
    → free mysac_setup d'' (disconnect mysac_setup d' (setup mysac_setup d addr user passwd m)).0
      ≡ (some 0, some addr ∷ some user ∷ passwd ∷ [])
unfolding free disconnect setup cleared
free-setup mysac_setup d d' d'' addr user passwd m s =
    let v = setup mysac_setup d addr user passwd m in
    let x = (disconnect mysac_setup d' v).0 in
    let a =
      s.has_addr x.addr x.login x.password d'' (cleared x)
      ∙ s.has_addr v.addr v.login v.password d' (cleared v)
      ∙ s.has_addr (some addr) (some user) passwd d m in
    let l =
      s.has_login x.addr x.login x.password d'' (cleared x)
      ∙ s.has_login v.addr v.login v.password d' (cleared v)
      ∙ s.has_login (some addr) (some user) passwd d m in
    let p =
      s.has_password x.addr x.login x.password d'' (cleared x)
      ∙ s.has_password v.addr v.login v.password d' (cleared v)
      ∙ s.has_password (some addr) (some user) passwd d m in
    ap₂ (λ (n : Option ℕ) t. (n, t)) (s.same_fd v.addr v.login v.password d' (cleared v))
      (ap₂ (λ (b : Option Bytes) t. b ∷ t) a (ap₂ (λ (b c : Option Bytes). b ∷ c ∷ []) l p))
