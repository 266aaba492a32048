-- ===== src/Lib.antt =====
-- Turnix, a small kernel for i386: its threads, locks and timers, and the library below them.
--
-- The parts and their files, with paths from the root of the repository:
--   * Kernel: the shared state of kernel/pthread.c, include/errno.h and include/pthread.h. Threads
--     and mutexes are numbers that index tables, a thread below 32 is `pthreads[i]` and 32 is
--     `pthread_idle`; a list of include/sys/queue.h is a list of such numbers. A call ends with a
--     result, a failed assertion (`panic`), a NULL pointer followed (`fault`), or without fuel.
--   * RunQueue: run_queue_init, run_queue_enqueue (enqueue), run_queue_peek (peek) and
--     run_queue_dequeue (dequeue) of kernel/pthread.c.
--   * Sched: __schedule (choose), schedule, __pthread_set_running (set_running), wake_up and
--     pthread_yield of kernel/pthread.c, with interrupt_dispatch of arch/i386/kernel/interrupt.c
--     and isr_comm (isr_return, context_switch) of arch/i386/kernel/isr.S.
--   * Context: the frames of registers that arch_context_switch saves and restores in
--     arch/i386/kernel/isr.S, and the first one of a thread (arch_pthread_init of
--     arch/i386/kernel/arch.c), on a memory of words.
--   * Boot: the output of kernel/main.c on the memory, pit_init of arch/i386/drivers/pit.c, cmos_init
--     of arch/i386/drivers/cmos.c and the interrupts of arch_init of arch/i386/kernel/arch.c.
--   * Inherit: __pthread_setschedprio (set_prio), __pthread_spread (spread) and
--     pthread_setschedprio. The recursion is on fuel; two calls for each mutex of the chain of
--     waits, and one more, are enough, and on a cycle no fuel is.
--   * Mutex: pthread_mutex_init, destroy, lock, trylock and unlock. A call that blocks is cut where
--     schedule gives the processor away: mutex_lock runs up to there, and mutex_relock is the rest,
--     which a waiter runs each time it is woken.
--   * Threads: pthread_create, __pthread_exit (finish), pthread_exit, pthread_detach and
--     pthread_join. A join is cut at its wait: join_round is one round of its loop, and join_again
--     what follows a wait. Start has pthread_init, the names and
--     pthread_foreach, Settings the attributes of include/pthread.h and include/sched.h, and Stack
--     stack_check_init and stack_check_size. has_loop runs on fuel, more than the longest chain of waits is enough.
--   * Timer: the heap of kernel/timer.c and the loop of timer_update (fire). Each loop has as much
--     fuel as the heap has timers, and one more.
--   * Clock: update_timeval, the clocks of timer_update (tick), clock_gettime and clock_settime.
--   * Timeout: schedule_timeout, sleep, usleep and timer_update of kernel/timer.c; a call is cut at its
--     call of schedule, and the timer on the stack of a thread has the number of the thread.
--   * Cond: the condition variables of kernel/pthread.c; pthread_cond_timedwait is cut at each place
--     where the processor may be given away (wait_begin, wait_block, wait_result, wait_leave).
--   * TailQueue: the macros of include/sys/queue.h on links; the other parts take a queue as a list.
--   * Pic: arch/i386/drivers/pic.c. Gdt: arch/i386/kernel/gdt.c. Idt: arch/i386/kernel/idt.c and the
--     table of handlers of arch/i386/kernel/interrupt.c.
--   * Philosophers, ProducerConsumer: applications/philosophers.c and
--     applications/producer_consumer.c, with a step for each statement that another thread can see.
--     Their mutexes and condition variables are taken by what they promise.
--   * TextBuffer: arch/i386/drivers/text_buffer.c on the bytes of video memory, with the memmove of
--     Memory.
--   * Cmos: arch/i386/drivers/cmos.c. The hardware is a function that gives each register at each
--     reading; the loops that wait for it are on fuel, and one round is enough for a steady clock.
--   * Strings: memcmp, strlen, strcmp, strchr and strtok_r of lib/string.c on lists of bytes.
--   * Readline: readline of lib/readline.c from the list of the bytes that getchar gives.
--   * Commands: the commands of applications/shell.c that print (do_date, do_uptime, do_cal, do_ps,
--     do_uname), with uname of kernel/utsname.c. Hexdump: lib/hexdump.c and do_hexdump, on fuel.
--   * Shell: cmd_parse, cmd_find, cmd_exec, cmd_list and do_help of applications/shell.c, for which a
--     handler of a command is a parameter. Session: the table of the commands with their handlers, and
--     the loop (loop) on the list of the lines that readline returns, each with the state that the
--     commands read then.
--   * Memory: memcpy, memmove and memset of lib/string.c on a memory of bytes by address.
--   * Ctype: include/ctype.h. Stdlib: __strtoul (parse), strtoul and strtol of lib/stdlib.c on a list
--     of bytes.
--   * Stdio: lib/stdio.c. The output is the list of characters sent to putchar and the count; the
--     arguments are data. The digits of a word need at most 32 rounds, which is the fuel of their
--     loop; the fuel of printf is for the loop of print_char, for which none is enough if it runs.
--   * Keyboard: arch/i386/drivers/keyboard.c on the queue of CircularBuffer; its interrupt handler
--     wakes a thread by the wake_up of Sched. A getchar is cut at its wait, as a join is.
--   * CircularBuffer: lib/circular_buffer.c with include/circular_buffer.h, as a queue of bytes.
--   * Calendar: mktime, gmtime_r and localtime_r of lib/time.c; a time is a signed word, as its pattern.
--   * Base: lists, maps, bits and Boolean tests that the parts share. Tests: the theorems at
--     concrete inputs.
--
-- Interrupts are off while most of these functions run, so each is one step, and orders of events are
-- sequences of such steps. sleep, usleep and schedule_timeout run with interrupts on: their steps are
-- definitions of their own (set_sleeping, timeout_arm, timeout_block), and Timeout/Early is about a tick
-- between them. Left out are the acknowledgement of the interrupt controller by
-- interrupt_dispatch, the default handler of interrupts, which prints the registers, lgdt and lidt, the
-- assembly of arch/i386/boot, and the threads that start the applications.
pub mod Base
pub mod Keyboard
pub mod Kernel
pub mod RunQueue
pub mod Sched
pub mod Inherit
pub mod Mutex
pub mod TextBuffer
pub mod Timeout
pub mod Cond
pub mod Cmos
pub mod Strings
pub mod Readline
pub mod Shell
pub mod Threads
pub mod Timer
pub mod Clock
pub mod CircularBuffer
pub mod Calendar
pub mod Memory
pub mod Ctype
pub mod Stdlib
pub mod Stdio
pub mod Tests
pub mod Philosophers
pub mod ProducerConsumer
pub mod Pic
pub mod Gdt
pub mod Idt
pub mod TailQueue
pub mod Commands
pub mod Hexdump
pub mod Session
pub mod Boot
pub mod Context
