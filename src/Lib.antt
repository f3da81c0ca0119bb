-- ===== src/Lib.antt =====
-- pycallocs: Python proxies for the memory of C libraries, on top of liballocs' run-time types.
--
-- The program turns each C type that liballocs describes (a `uniqtype`) into a foreign type, which
-- reads a Python object from an address (`ft_getfrom`) and stores one into it (`ft_storeinto`).
-- Numbers and characters are copied; addresses, arrays and structs are seen through proxies, which
-- use the foreign types of their items and fields; functions are called through libffi, with each
-- argument stored by its foreign type. How many items an address has is asked of liballocs.
--
-- The modules, and the files that they model:
--   Prelude         shared names, tests, lists, integers and results
--   Memory          bytes at addresses; `load`, `store`, `zero_fill` (memset) and `memcpy`
--   Python          the objects and number functions of CPython that the code calls
--   BaseType        foreign_basetype.c: the conversions, one function for each `ft_getfrom` and
--                   `ft_storeinto`, over the width in bytes in place of the macros' `size`;
--                   `foreign_base_type_new` is ForeignBaseType_New
--   Bounds          minicrunch.c: `bounds_cb`, and `fetch_bounds` for __fetch_bounds_internal
--   Ffi             function_proxy.c, lines 16 to 139: `ffi_type_for` for ffi_type_for_uniqtype
--   FunctionType    function_proxy.c, lines 141 to 239: `setup` and `dealloc` of a function type;
--                   `Life` has lines 445 to 499, its creation, and all between creation and end
--   FunctionCall    function_proxy.c, lines 251 to 316: `funproxy_call`
--   Closure         function_proxy.c, lines 358 to 443: Python functions that C code calls
--   AddressProxy    address_proxy.c, lines 33 to 168: items, slices and initialisation;
--                   lines 204 to 225: the length, which `fetch_bounds` gives;
--                   `Pointers` has lines 241 to 258 and 281 to 347: what a pointer may be
--   ArrayProxy      address_proxy.c, lines 442 to 526: the constructor of arrays
--   CompositeProxy  composite_proxy.c, lines 40 to 177: fields and `compositeproxy_init`
--   Proxy           proxy.c, lines 234 to 271: `proxy_store_into` for Proxy_StoreInto; and
--                   compositeproxy_ctor of composite_proxy.c
--   Registry        proxy.c, lines 1 to 232: proxies, their reference counts and the dictionaries
--                   that keep them; `Registry.Copies` adds the bytes that Proxy_CopyFrom copies;
--                   `Registry.Pointers` and `Registry.Arrays` have addrproxy_getfrom and
--                   arrayproxy_getfrom of address_proxy.c, `Registry.Slices` the proxy that a slice
--                   makes, and `Registry.Steps` the calls in any order
--   Traversal       the traversals and clearing for Python's collector: proxy.c, lines 168 to 179
--                   and 280 to 293, address_proxy.c, lines 349 to 367 and 528 to 543, and
--                   composite_proxy.c, lines 237 to 265
--   ForeignType     foreign_type.c, lines 116 to 197: `get_or_create` for ForeignType_GetOrCreate;
--                   lines 25 to 78: `Requests`, the methods that ask for derived types
--   TypeSetup       composite_proxy.c, lines 267 to 346, address_proxy.c, lines 410 to 440, and
--                   foreign_type.c, lines 198 to 210: the proxy types of composites and pointers.
--                   `Objects` has the foreign type object of each kind (`struct ForeignTypeObject`
--                   of include/foreign_library.h), `Typdict` ForeignType_GetOrCreate on a table of
--                   these, `Counted` the same with reference counts, `Fields` the references
--                   of compositeproxytype_dealloc, and `Void` the conversions of void
--   Repr            address_proxy.c, lines 170 to 202, and composite_proxy.c, lines 199 to 235:
--                   `repr` for PyObject_Repr of proxies; `Signature` has funproxy_repr of
--                   function_proxy.c, lines 318 to 356
--   AllocsModule    allocs_module.c, lines 18 to 66: `init_allocs` for PyInit_allocs
--   LibraryLoader   library_loader.c: `libloader_exec`, with the types that it adds to the module;
--                   `Handle` has the opening and closing of the library
--   Tests           the theorems at concrete inputs
-- A function of the model has the name of the C function; its parts are named for what they do.
--
-- Parameters. What liballocs, libffi and CPython do is an argument of the model: `Python` (objects,
-- number functions), `Floats` (bit patterns), `AllocInfo` and `Visit` (what liballocs reports of an
-- allocation and of its subobjects), `Libffi` and `Foreign` (the call, and the foreign types of
-- arguments), `Clip` (PySlice_AdjustIndices), `Allocation` (what is known of an
-- address), the memory that Python and malloc give, the pointers that liballocs deletes, `Types`
-- (the subtypes among Python's types), `Objects` and `Dict` (what an initialiser asks of its
-- argument). The laws in these records are what their documentation promises.
-- A foreign type's store is taken to write its own bytes only: a law of `ItemType` and `FieldType`,
-- and a hypothesis on the arguments of a call, which `BaseType.Frames` proves for the conversions.
--
-- State. A function that writes memory takes it and returns it. An exception is a value, `Stored`
-- or `Result`. An allocation or a reference that is taken and released is counted.
--
-- Crashes. Where the code uses a NULL pointer, fails an assertion or takes the wrong object for a
-- base proxy, the model has a value of its own, and ends there: `none`, `crashed` or `aborted`. A
-- pointer whose pointee has no foreign type is such a case (`has_pointee`), and an allocation whose
-- type has none or is a pointer type (`AllocatedType`). The creation of foreign types is modelled
-- while no exception is left set, which `NonePending` states.
--
-- Numbers. Integers are natural numbers, or `ℤ` where C has a signed type; each cut of C to 32 or
-- 64 bits is written out. An address plus an offset is not cut, but for negative offsets. A copy
-- between overlapping blocks, undefined in C, copies the bytes as they were. All recursion follows a
-- list or a type, but for seven functions that have fuel for the depth of their recursion. For
-- `get_or_create`, `get_object` and `get_counted` more than there are types is enough, as each step
-- enters one more of them into the table; for `add_useful` more than there are types times the longest way between composites;
-- for `del_ref` more than there are entries, as each step deletes one; for `repr` more than the
-- layers of values that are not structs times the struct types and the object's own rank; and for
-- `iterate_syms` more than there are symbols.
--
-- Not modelled: the objects that Python, dlopen and liballocs make, but for what their callers see;
-- the reference counts of static type objects; and the metatypes' refusals to be called. When Python
-- collects is its own affair.
pub mod Prelude
pub mod Memory
pub mod Python
pub mod BaseType
pub mod Bounds
pub mod Ffi
pub mod FunctionType
pub mod FunctionCall
pub mod AddressProxy
pub mod CompositeProxy
pub mod Proxy
pub mod Registry
pub mod ForeignType
pub mod LibraryLoader
pub mod Traversal
pub mod ArrayProxy
pub mod Closure
pub mod TypeSetup
pub mod Repr
pub mod AllocsModule
pub mod Tests
