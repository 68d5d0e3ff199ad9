-- ===== src/LinkedList.antt =====
-- The functions of ksrc/linked_list.c, statement by statement.
mod Tests
pub mod Shape
pub mod Create
pub mod Seg
pub mod Keeps
pub mod Insert
pub mod Steps
pub mod Ends
pub mod Search
pub mod Remove
use yalnix_os.Common.{
  ℕ, zero, suc, ◌+◌, ◌-◌, Option, none, some, Bool, true, false, ◌||◌, not, ◌==◌, if◌then◌else◌,
  update,
}
use yalnix_os.Common.Int.{ℤ, pos, minus_one, eqb_ℤ}
use yalnix_os.Heap.{
  Ptr, null, Node, Ll, Heap, Cmd, pure, fault, ◌>>=◌, ◌>>◌, load, store, load_list, store_list,
  set_next, set_prev,
}

-- `fresh` is the address that `malloc` returns.
pub new_ll : (fresh : Ptr) → Cmd Ptr
new_ll fresh h = some (
  fresh,
  record h { list = update h.list fresh (some (record { size = 0; head = null; tail = null })) },
)

-- `malloc` leaves `code` undefined: here it is an argument.
pub new_node : (fresh : Ptr) → (code : ℤ) → Ptr → Cmd Ptr
new_node fresh code contents h = some (
  fresh,
  record h {
    node =
        update h.node fresh
          (some (record { contents = contents; code = code; next = null; prev = null }));
  },
)

-- The node is freed; its payload is freed by the caller of the model, which knows its kind.
unfoldable pub destroy_node : Ptr → Cmd (Unit {0})
destroy_node n = if n == null then pure tt else do
  store n (record { contents = null; code = minus_one; next = null; prev = null })
  λ h. some (tt, record h { node = update h.node n none })

-- -1 for NULL
pub get_size : Ptr → Cmd ℤ
get_size list = if list == null then pure minus_one else do l ← load_list list; pure (pos l.size)

-- As C reads the result of `is_empty` in a test: -1, the result for NULL, is true.
unfoldable pub is_empty : Ptr → Cmd Bool
is_empty list = if list == null then pure true else do l ← load_list list; pure (l.size == 0)

pub grow : Ptr → Cmd (Unit {0})
grow list = do l ← load_list list; store_list list (record l { size = l.size + 1 })

unfoldable pub shrink : Ptr → Cmd (Unit {0})
shrink list = do l ← load_list list; store_list list (record l { size = l.size - 1 })

-- The branch that `enqueue` and `push` share, for an empty list.
pub put_only : Ptr → Ptr → Cmd (Unit {0})
put_only list n = do
  l ← load_list list
  store_list list (record l { head = n; tail = n })
  set_prev n null
  set_next n null

pub put_last : Ptr → Ptr → Cmd (Unit {0})
put_last list n = do
  l ← load_list list
  set_next n null
  set_prev n l.tail
  set_next l.tail n
  store_list list (record l { tail = n })

pub put_first : Ptr → Ptr → Cmd (Unit {0})
put_first list n = do
  l ← load_list list
  set_next n l.head
  set_prev n null
  set_prev l.head n
  store_list list (record l { head = n })

unfoldable pub enqueue : Ptr → Ptr → Cmd (Unit {0})
unfolding put_only put_last grow
enqueue list n = if (list == null) || (n == null) then pure tt else do
  l ← load_list list
  if l.head == null then put_only list n else put_last list n
  grow list

unfoldable pub push : Ptr → Ptr → Cmd (Unit {0})
unfolding put_only put_first grow
push list n = if (list == null) || (n == null) then pure tt else do
  l ← load_list list
  if l.head == null then put_only list n else put_first list n
  grow list

-- `n->next = n->prev = NULL`, after the unlinking
unfoldable pub clear_links : Ptr → Cmd (Unit {0})
clear_links n = do set_prev n null; set_next n null

pub drop_last : Ptr → Cmd (Unit {0})
drop_last list = do
  l ← load_list list
  if l.head == l.tail
      then store_list list (record l { head = null; tail = null })
      else do t ← load l.tail; store_list list (record l { tail = t.prev }); set_next t.prev null

unfoldable pub drop_first : Ptr → Cmd (Unit {0})
drop_first list = do
  l ← load_list list
  if l.head == l.tail
      then store_list list (record l { head = null; tail = null })
      else do t ← load l.head; store_list list (record l { head = t.next }); set_prev t.next null

-- The tail, taken off the list.
pub pop : Ptr → Cmd Ptr
unfolding drop_last shrink clear_links
pop list = do
  empty ← is_empty list
  if empty
      then pure null
      else do l ← load_list list; drop_last list; shrink list; clear_links l.tail; pure l.tail

-- The head, taken off the list.
unfoldable pub dequeue : Ptr → Cmd Ptr
unfolding drop_first shrink clear_links
dequeue list = do
  empty ← is_empty list
  if empty
      then pure null
      else do l ← load_list list; drop_first list; shrink list; clear_links l.head; pure l.head

-- `n->next->prev = n->prev; n->prev->next = n->next;`
pub unlink : Ptr → Cmd (Unit {0})
unlink n = do x ← load n; set_prev x.next x.prev; y ← load n; set_next y.prev y.next

-- The last branch of `remove`.
unfoldable pub remove_inner : Ptr → Ptr → Cmd Ptr
unfolding unlink shrink clear_links
remove_inner list n = if n == null then pure n else do unlink n; clear_links n; shrink list; pure n

unfoldable pub remove : Ptr → Ptr → Cmd Ptr
unfolding remove_inner
remove list n = do
  empty ← is_empty list
  if empty then pure null else do
    l ← load_list list
    if l.head == n
        then (do _ ← dequeue list; pure n)
        else (if l.tail == n then (do _ ← pop list; pure n) else remove_inner list n)

-- The loop of `has_member`; the first argument is fuel.
pub member_loop : ℕ → Ptr → Ptr → Cmd Bool
member_loop zero curr n = fault
member_loop (suc k) curr n =
    if curr == null
    then pure false
    else (if curr == n then pure true else do x ← load curr; member_loop k x.next n)

pub has_member : ℕ → Ptr → Ptr → Cmd Bool
unfolding member_loop
has_member fuel list n =
    if (list == null) || (n == null)
    then pure false
    else do l ← load_list list; member_loop fuel l.head n

-- The loop of `find`; the first argument is fuel.
pub find_loop : ℕ → Ptr → ℤ → Cmd Ptr
find_loop zero curr code = fault
find_loop (suc k) curr code =
    if curr == null
    then pure null
    else do x ← load curr; if eqb_ℤ x.code code then pure curr else find_loop k x.next code

pub find : ℕ → Ptr → ℤ → Cmd Ptr
unfolding find_loop
find fuel list code =
    if list == null then pure null else do l ← load_list list; find_loop fuel l.head code
