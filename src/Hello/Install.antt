-- ===== src/Hello/Install.antt =====
-- hello_init and hello_exit of hello-driver/hello.c, as the calls of the kernel that they make.
pub mod Ledger
use c_modules.Base.{
  ℕ, zero, suc, ◌+◌, ◌-◌, Bool, true, false, not, List, [], ◌∷◌, ◌++◌, ◌==◌, if◌then◌else◌,
}

-- The calls: those that can fail say whether they worked, `class_destroy` whether its argument is a
-- class or an error pointer.
pub data Call : Type 0 where
  kmalloc alloc_chrdev_region cdev_add class_create : (worked : Bool) → Call
  kfree unregister_chrdev_region cdev_init cdev_del : Call
  class_destroy : (is_class : Bool) → Call
  device_create device_destroy : (minor : ℕ) → Call
  mutex_init : Call

-- What the kernel answers: whether kmalloc and class_create succeed, and two error codes.
pub record Answers : Type 0 where
  pub allocated : Bool
  pub alloc_ret : ℕ
  pub cdev_err : ℕ
  pub class_made : Bool

-- How loading the module ends, with the calls.
pub data Loaded : Type 0 where
  installed : List Call → Loaded
  failed : List Call → Loaded
  oops : List Call → Loaded

abbrev pub hello_devs : ℕ
hello_devs = 2

-- `for(minor = 0; minor < hello_devs; minor++)`, from `minor` on with `n` rounds left.
unfoldable pub each_minor : (ℕ → Call) → (n minor : ℕ) → List Call
each_minor call zero minor = []
each_minor call (suc n) minor = call minor ∷ each_minor call n (minor + 1)

-- What `pHello_class` holds at the label.
pub data ClassPointer : Type 0 where
  null error_pointer : ClassPointer

-- Behind `error:`, where pHelloDev is not NULL.
unfoldable pub clean_up : ClassPointer → (cdev_err alloc_ret : ℕ) → List Call
clean_up class cdev_err alloc_ret =
    elim class [ null ↦ [] | error_pointer ↦ class_destroy false ∷ [] ]
    ++ ((if cdev_err == 0 then cdev_del ∷ [] else [])
        ++ ((if alloc_ret == 0 then unregister_chrdev_region ∷ [] else []) ++ (kfree ∷ [])))

-- hello_init; `&pHelloDev->Hello_cdev == NULL` never holds.
unfoldable pub hello_init : Answers → Loaded
unfolding each_minor clean_up
hello_init k =
    if not k.allocated
    then oops (kmalloc false ∷ [])
    else if not (k.alloc_ret == 0)
    then failed (kmalloc true ∷ alloc_chrdev_region false ∷ clean_up null 0 k.alloc_ret)
    else if not (k.cdev_err == 0)
    then failed (
        kmalloc true
        ∷ alloc_chrdev_region true
        ∷ cdev_init
        ∷ cdev_add false
        ∷ clean_up null k.cdev_err k.alloc_ret)
    else if not k.class_made
    then failed (
        kmalloc true
        ∷ alloc_chrdev_region true
        ∷ cdev_init
        ∷ cdev_add true
        ∷ class_create false
        ∷ clean_up error_pointer k.cdev_err k.alloc_ret)
    else installed (
        kmalloc true
        ∷ alloc_chrdev_region true
        ∷ cdev_init
        ∷ cdev_add true
        ∷ class_create true
        ∷ (each_minor device_create hello_devs 0 ++ (mutex_init ∷ [])))

-- hello_exit
unfoldable pub hello_exit : List Call
unfolding each_minor
hello_exit =
    each_minor device_destroy hello_devs 0
    ++ (class_destroy true ∷ cdev_del ∷ unregister_chrdev_region ∷ kfree ∷ [])
